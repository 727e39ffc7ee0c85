-- ===== src/Pool/Failover.antt =====
-- pkg/session/wgpool.go: a request is answered when some proxy accepts it, and by the best of those.
use tvproxy.Base.{
  ℕ, ◌≤◌, String, ◌≡◌, ◌≢◌, refl, sym, ap, ◌⊎◌, inl, inr, Bool, true, false, List, [], ◌∷◌, Option,
  none, some, ok, arith, some_inj, ltb→lt, List-cases, any-false, ok-ne-err, ok_inj, ltb→le,
  All-mono, Bool-cases, ◌∙◌, nat_eq, ltb, if◌then◌else◌, length, All, any,
}
use mathlib.Core.List.{Mem, mem-cons_self, mem-cons_of_mem}
use mathlib.Core.List.Perm
use tvproxy.Base.Sort.{sort, sort-All_inv, sort-IsSorted, IsSorted, sort-perm}
use tvproxy.Pool.{
  PoolEntry, Pool, Attempt, failed, responded, transport, forbidden_via, LastError, mark_fail,
  mark_success, fewer_failures, try_each, do_request, best_of, chosen,
}

-- A proxy takes the request when the round trip gives a response other than 403.
abbrev pub accepts : Attempt → Bool
accepts (failed why) = false
accepts (responded status) = elim (nat_eq status 403) [ true ↦ false | false ↦ true ]

-- The entry `e` refuses the request, or has at least `n` failures.
abbrev pub RefusesOrWorse : (PoolEntry → Attempt) → ℕ → PoolEntry → Type 0
RefusesOrWorse attempt n e = (accepts (attempt e) ≡ false) ⊎ (n ≤ e.fail_count)

-- The response of an answered request is that of an entry which accepts it, and no accepting entry
-- has fewer failures.
abbrev pub IsBest : (PoolEntry → Attempt) → ℕ → List PoolEntry → Type 0
IsBest attempt status es =
    (e : PoolEntry) × Mem e es
    × (attempt e ≡ responded status)
    × (accepts (attempt e) ≡ true)
    × All (RefusesOrWorse attempt e.fail_count) es

Attempt-cases :
    (a : Attempt)
    → (accepts a ≡ false) ⊎ ((status : ℕ) × (a ≡ responded status) × (accepts a ≡ true))
Attempt-cases (failed why) = inl refl
Attempt-cases (responded status) = elim (Bool-cases (nat_eq status 403)) [
  | inl h ↦ inl (ground (arith, h))
  | inr h ↦ inr (status, refl, ground (arith, h))
]

refused-cases :
    (a : Attempt)
    → accepts a ≡ false
    → ((why : String) × (a ≡ failed why))
      ⊎ ((status : ℕ) × (a ≡ responded status) × (nat_eq status 403 ≡ true))
refused-cases (failed why) h = inl (why, refl)
refused-cases (responded status) h = inr (status, refl, ground (arith, h))

module _ (attempt : PoolEntry → Attempt) (now count : ℕ) where
  try_each-refused :
      (e : PoolEntry) (es : List PoolEntry) (last : Option LastError) (p : Pool)
      → accepts (attempt e) ≡ false
      → (why : Option LastError) × (try_each attempt now count (e ∷ es) last p
          ≡ try_each attempt now count es why (mark_fail now e p))
  unfolding try_each
  try_each-refused e es last p h = elim (refused-cases (attempt e) h) [
    | inl f ↦ (some (transport f.0), ground (arith, f.1))
    | inr f ↦ (some (forbidden_via e.profile_name), ground (arith, f.1, f.2))
  ]

  try_each-accepted :
      (e : PoolEntry) (es : List PoolEntry) (last : Option LastError) (p : Pool) (status : ℕ)
      → attempt e ≡ responded status
      → accepts (attempt e) ≡ true
      → try_each attempt now count (e ∷ es) last p ≡ (mark_success e p, ok status)
  unfolding try_each
  try_each-accepted e es last p status a h = ground (arith, a, h)

  try_each-IsBest :
      (es : List PoolEntry) (last : Option LastError) (p : Pool) (status : ℕ)
      → IsSorted fewer_failures es
      → (try_each attempt now count es last p).1 ≡ ok status
      → IsBest attempt status es
  unfolding try_each
  try_each-IsBest [] last p status s h = elim (ok-ne-err (sym h)) [ ]
  try_each-IsBest (e ∷ es) last p status s h = elim (Attempt-cases (attempt e)) [
    | inl r ↦
        let step = try_each-refused e es last p r in
        let best =
          try_each-IsBest es step.0 (mark_fail now e p) status s.1
            (sym (ap (λ x. x.1) step.1) ∙ h) in
        (best.0, mem-cons_of_mem e best.1, best.2, best.3, (inl r, best.4))
    | inr a ↦
        let same = ok_inj (sym (ap (λ x. x.1) (try_each-accepted e es last p a.0 a.1 a.2)) ∙ h) in
        (
          e,
          mem-cons_self,
          a.1 ∙ ap responded same,
          a.2,
          (
            inr (omega arith),
            All-mono (λ y. fewer_failures y e ≡ false) (RefusesOrWorse attempt e.fail_count) es
                (λ y n. inr (ltb→le y.fail_count e.fail_count n)) s.0,
          ),
        )
  ]

  try_each-answers :
      (es : List PoolEntry) (last : Option LastError) (p : Pool)
      → any (λ e. accepts (attempt e)) es ≡ true
      → (status : ℕ) × ((try_each attempt now count es last p).1 ≡ ok status)
  try_each-answers [] last p h = ground (arith, h)
  try_each-answers (e ∷ es) last p h = elim (Attempt-cases (attempt e)) [
    | inl r ↦
        let step = try_each-refused e es last p r in
        let more = try_each-answers es step.0 (mark_fail now e p) (ground (arith, h, r)) in
        (more.0, ap (λ x. x.1) step.1 ∙ more.1)
    | inr a ↦ (a.0, ap (λ x. x.1) (try_each-accepted e es last p a.0 a.1 a.2))
  ]

never_both : (a b : PoolEntry) → fewer_failures a b ≡ true → fewer_failures b a ≡ false
never_both a b h = ground (arith, h)

no_fewer :
    (a b c : PoolEntry)
    → fewer_failures a b ≡ false
    → fewer_failures b c ≡ false
    → fewer_failures a c ≡ false
no_fewer a b c h k = ground (arith, h, k)

do_request-sorted :
    (attempt : PoolEntry → Attempt) (direct : Attempt) (now : ℕ) (p : Pool)
    → p.proxies ≢ []
    → do_request attempt direct now p
      ≡ try_each attempt now (length p.proxies) (sort fewer_failures p.proxies) none p
unfolding do_request
do_request-sorted attempt direct now p n = elim (List-cases p.proxies) [
  | inl e ↦ elim (n e) [ ]
  | inr c ↦ ground (arith, c.2)
]

-- When a pool with proxies answers a request, the response is that of one of its proxies, which did
-- not fail and did not answer 403, and no proxy that would accept the request has fewer failures.
pub do_request-IsBest :
    (attempt : PoolEntry → Attempt) (direct : Attempt) (now : ℕ) (p : Pool) (status : ℕ)
    → p.proxies ≢ []
    → (do_request attempt direct now p).1 ≡ ok status
    → IsBest attempt status p.proxies
unfolding do_request
do_request-IsBest attempt direct now p status n h =
    let sorted = sort-IsSorted fewer_failures never_both no_fewer p.proxies in
    let best =
      try_each-IsBest attempt now (length p.proxies) (sort fewer_failures p.proxies) none p status
        sorted (sym (ap (λ x. x.1) (do_request-sorted attempt direct now p n)) ∙ h) in
    (
      best.0,
      (Perm.mem_iff (sort-perm fewer_failures p.proxies)).0 best.1,
      best.2,
      best.3,
      sort-All_inv fewer_failures (RefusesOrWorse attempt best.0.fail_count) p.proxies best.4,
    )

any-sort :
    (attempt : PoolEntry → Attempt) (es : List PoolEntry)
    → any (λ e. accepts (attempt e)) es ≡ true
    → any (λ e. accepts (attempt e)) (sort fewer_failures es) ≡ true
any-sort attempt es h =
    elim (Bool-cases (any (λ e. accepts (attempt e)) (sort fewer_failures es))) [
      | inl e ↦ e
      | inr e ↦
          let none_sorted = (any-false (λ x. accepts (attempt x)) (sort fewer_failures es)).0 e in
          let none_accepts =
            (any-false (λ x. accepts (attempt x)) es).1
              (sort-All_inv fewer_failures (λ x. accepts (attempt x) ≡ false) es none_sorted) in
          ground (arith, h, none_accepts)
    ]

some_proxy :
    (attempt : PoolEntry → Attempt) (es : List PoolEntry)
    → any (λ e. accepts (attempt e)) es ≡ true
    → es ≢ []
some_proxy attempt [] h = λ e. ground (arith, h)
some_proxy attempt (x ∷ es) h = λ e. cc

-- A pool with a proxy that accepts the request answers it, however many others fail first.
pub do_request-answers :
    (attempt : PoolEntry → Attempt) (direct : Attempt) (now : ℕ) (p : Pool)
    → any (λ e. accepts (attempt e)) p.proxies ≡ true
    → (status : ℕ) × ((do_request attempt direct now p).1 ≡ ok status)
unfolding do_request
do_request-answers attempt direct now p h =
    let answer =
      try_each-answers attempt now (length p.proxies) (sort fewer_failures p.proxies) none p
        (any-sort attempt p.proxies h) in
    (
      answer.0,
      ap (λ x. x.1) (do_request-sorted attempt direct now p (some_proxy attempt p.proxies h))
          ∙ answer.1,
    )

least_of_two :
    (e x : PoolEntry)
    → ((if ltb x.fail_count e.fail_count then x else e).fail_count ≤ e.fail_count)
      × ((if ltb x.fail_count e.fail_count then x else e).fail_count ≤ x.fail_count)
least_of_two e x = elim (Bool-cases (ltb x.fail_count e.fail_count)) [
  | inl h ↦ let lt = ltb→lt x.fail_count e.fail_count h in rw h (omega (arith, lt), omega arith)
  | inr h ↦ let le = ltb→le x.fail_count e.fail_count h in rw h (omega arith, omega (arith, le))
]

best_of-least :
    (e : PoolEntry) (es : List PoolEntry)
    → ((best_of e es).fail_count ≤ e.fail_count)
      × All (λ x. (best_of e es).fail_count ≤ x.fail_count) es
best_of-least e [] = (omega arith, tt)
best_of-least e (x ∷ es) =
    let better = least_of_two e x in
    let rest = best_of-least (if ltb x.fail_count e.fail_count then x else e) es in
    (omega (arith, rest.0, better.0), (omega (arith, rest.0, better.1), rest.1))

-- With no active profile set, the stream goes through a proxy with the fewest failures of all.
pub chosen-least :
    (p : Pool) (e : PoolEntry)
    → p.active_id ≡ none
    → chosen p ≡ some e
    → All (λ x. e.fail_count ≤ x.fail_count) p.proxies
unfolding chosen
chosen-least p e none_set h = elim (List-cases p.proxies) [
  | inl c ↦ rw c tt
  | inr c ↦
      let same = some_inj {a = best_of c.0 c.1} {b = e} (ground (arith, none_set, h, c.2)) in
      rw c.2 (
        All-mono (λ x. (best_of c.0 c.1).fail_count ≤ x.fail_count)
          (λ x. e.fail_count ≤ x.fail_count) (c.0 ∷ c.1) (λ x l. rw (sym same) l)
          (best_of-least c.0 c.1))
]
