-- ===== src/Activity/Counting.antt =====
-- pkg/service/activity.go: the numbers of viewers per account.
use tvproxy.Base.{
  ℕ, suc, ◌+◌, String, ◌≡◌, refl, sym, subst, ◌≢◌, ◌∙◌, inl, inr, Bool, true, false, ◌==◌, List, [],
  ◌∷◌, length, keep, arith, Bool-cases, eq_iff,
}
use tvproxy.Base.Maps.{Map, put, values, lookup-put, lookup-put_ne}
use tvproxy.Activity.{ViewerEntry, Activity, counted, count_each, count_by_m3u_account}

abbrev pub on_account : String → ViewerEntry → Bool
on_account account v = v.opts.m3u_account_id == account

counted-put : (k : String) (n : ℕ) (m : Map ℕ) → counted k (put k n m) ≡ n
counted-put k n m = rw (counted, lookup-put k n m) refl

counted-put_ne : (j k : String) (n : ℕ) (m : Map ℕ) → j ≢ k → counted j (put k n m) ≡ counted j m
counted-put_ne j k n m h = rw (counted, lookup-put_ne j k n m h) refl

counted-put_more :
    (j k : String) (m : Map ℕ) → k ≡ j → counted j (put k (suc (counted k m)) m) ≡ suc (counted j m)
counted-put_more j k m e =
    subst (λ (z : String). counted j (put z (suc (counted z m)) m) ≡ suc (counted j m)) (sym e)
      (counted-put j (suc (counted j m)) m)

-- Viewers on no account are on no other.
on_account-none :
    (account : String) (v : ViewerEntry)
    → (v.opts.m3u_account_id == "") ≡ true
    → account ≢ ""
    → on_account account v ≡ false
on_account-none account v e h = elim (Bool-cases (on_account account v)) [
  | inl a ↦
      elim (h (
        sym ((eq_iff v.opts.m3u_account_id account).0 a)
        ∙ (eq_iff v.opts.m3u_account_id "").0 e)) [ ]
  | inr a ↦ a
]

-- Counting on from some counts adds the number of the viewers on the account.
counted-count_each :
    (account : String) (vs : List ViewerEntry) (m : Map ℕ)
    → account ≢ ""
    → counted account (count_each vs m) ≡ counted account m + length (keep (on_account account) vs)
counted-count_each account [] m h = omega arith
counted-count_each account (v ∷ vs) m h = elim (Bool-cases (v.opts.m3u_account_id == "")) [
  | inl e ↦
      let n : on_account account v ≡ false = on_account-none account v e h in
      rw (e, n) (counted-count_each account vs m h)
  | inr e ↦ elim (Bool-cases (v.opts.m3u_account_id == account)) [
    | inl a ↦
        let r =
          counted-count_each account vs
            (put v.opts.m3u_account_id (suc (counted v.opts.m3u_account_id m)) m) h in
        let one =
          counted-put_more account v.opts.m3u_account_id m
            ((eq_iff v.opts.m3u_account_id account).0 a) in
        rw (e, a) (omega (arith, r, one))
    | inr a ↦
        let r =
          counted-count_each account vs
            (put v.opts.m3u_account_id (suc (counted v.opts.m3u_account_id m)) m) h in
        let same =
          counted-put_ne account v.opts.m3u_account_id (suc (counted v.opts.m3u_account_id m)) m
            (not_that a) in
        rw (e, a) (omega (arith, r, same))
  ]
]
  where
    not_that : (v.opts.m3u_account_id == account) ≡ false → account ≢ v.opts.m3u_account_id
    not_that a s =
        let same : (v.opts.m3u_account_id == account) ≡ true =
          (eq_iff v.opts.m3u_account_id account).1 (sym s) in
        ground (arith, a, same)

-- For every account but the empty one, the number given is that of the viewers on it.
pub count_by_m3u_account-length :
    (account : String) (s : Activity)
    → account ≢ ""
    → counted account (count_by_m3u_account s)
      ≡ length (keep (on_account account) (values s.viewers))
unfolding count_by_m3u_account
count_by_m3u_account-length account s h =
    omega (arith, counted-count_each account (values s.viewers) [] h)
