-- ===== src/Guide/Now.antt =====
-- pkg/store/epg.go: the programme that is on.
use tvproxy.Base.{
  ℕ, String, ◌≡◌, refl, sym, subst, ◌⊎◌, inl, inr, true, false, List, [], ◌∷◌, none, some, Result,
  ok, err, arith, ltb, All, Bool-cases,
}
use mathlib.Core.List.{Mem, mem-cons_self, mem-cons_of_mem}
use tvproxy.Base.Maps.{lookup}
use tvproxy.Store.Table.{Error, not_found}
use tvproxy.Guide.{EpgStore, ProgramData}
use tvproxy.Guide.Views.{programs_of, is_airing, best_now, get_now_by_channel_id}

-- What a channel's programme is, or why there is none.
abbrev pub IsNow : ℕ → List ProgramData → Result Error ProgramData → Type 0
IsNow now ps (ok p) =
    (is_airing now p ≡ true)
    × Mem p ps
    × All (λ q. (is_airing now q ≡ false) ⊎ (ltb p.start q.start ≡ false)) ps
IsNow now ps (err e) = (e ≡ not_found) × All (λ q. is_airing now q ≡ false) ps

-- The loop, from any best that is on: what it ends with is that one or one of the programmes, and
-- begins no earlier than either.
best_now-some :
    (now : ℕ) (best : ProgramData) (ps : List ProgramData)
    → is_airing now best ≡ true
    → (p : ProgramData) × (best_now now (some best) ps ≡ some p)
      × (is_airing now p ≡ true)
      × ((p ≡ best) ⊎ Mem p ps)
      × (ltb p.start best.start ≡ false)
      × All (λ q. (is_airing now q ≡ false) ⊎ (ltb p.start q.start ≡ false)) ps
best_now-some now best [] h = (best, refl, h, inl refl, ground arith, tt)
best_now-some now best (q ∷ ps) h = elim (Bool-cases (is_airing now q)) [
  | inr off ↦
      let r = best_now-some now best ps h in
      (r.0, rw off r.1, r.2, later r.0 r.3, r.4, (inl off, r.5))
  | inl on ↦ elim (Bool-cases (ltb best.start q.start)) [
    | inl e ↦
        let r = best_now-some now q ps on in
        (r.0, rw (on, e) r.1, r.2, inr (from_new r.0 r.3), ground (arith, e, r.4), (inr r.4, r.5))
    | inr e ↦
        let r = best_now-some now best ps h in
        (r.0, rw (on, e) r.1, r.2, later r.0 r.3, r.4, (inr (ground (arith, e, r.4)), r.5))
  ]
]
  where
    later : (p : ProgramData) → (p ≡ best) ⊎ Mem p ps → (p ≡ best) ⊎ Mem p (q ∷ ps)
    later p (inl e) = inl e
    later p (inr m) = inr (mem-cons_of_mem q m)

    from_new : (p : ProgramData) → (p ≡ q) ⊎ Mem p ps → Mem p (q ∷ ps)
    from_new p (inl e) = subst (λ (z : ProgramData). Mem z (q ∷ ps)) (sym e) mem-cons_self
    from_new p (inr m) = mem-cons_of_mem q m

best_now-cases :
    (now : ℕ) (ps : List ProgramData)
    → ((best_now now none ps ≡ none) × All (λ q. is_airing now q ≡ false) ps)
      ⊎ ((p : ProgramData) × (best_now now none ps ≡ some p)
          × (is_airing now p ≡ true)
          × Mem p ps
          × All (λ q. (is_airing now q ≡ false) ⊎ (ltb p.start q.start ≡ false)) ps)
best_now-cases now [] = inl (refl, tt)
best_now-cases now (q ∷ ps) = elim (Bool-cases (is_airing now q)) [
  | inr off ↦ elim (best_now-cases now ps) [
    | inl n ↦ inl (rw off n.0, (off, n.1))
    | inr r ↦ inr (r.0, rw off r.1, r.2, mem-cons_of_mem q r.3, (inl off, r.4))
  ]
  | inl on ↦
      let r = best_now-some now q ps on in
      inr (r.0, rw on r.1, r.2, from_first r.0 r.3, (inr r.4, r.5))
]
  where
    from_first : (p : ProgramData) → (p ≡ q) ⊎ Mem p ps → Mem p (q ∷ ps)
    from_first p (inl e) = subst (λ (z : ProgramData). Mem z (q ∷ ps)) (sym e) mem-cons_self
    from_first p (inr m) = mem-cons_of_mem q m

-- For a channel with guide data, the programme that is given is one of the channel's, has begun and
-- has not ended, and no other of them that is on begins later; none is given only when none is on.
pub get_now_by_channel_id-IsNow :
    (channel epg : String) (now : ℕ) (g : EpgStore)
    → lookup channel g.epg_by_channel_id ≡ some epg
    → IsNow now (programs_of g epg) (get_now_by_channel_id channel now g)
unfolding get_now_by_channel_id
get_now_by_channel_id-IsNow channel epg now g h = elim (best_now-cases now (programs_of g epg)) [
  | inl n ↦ rw (get_now_by_channel_id, h, n.0) (refl, n.1)
  | inr r ↦ rw (get_now_by_channel_id, h, r.1) (r.2, r.3, r.4)
]
