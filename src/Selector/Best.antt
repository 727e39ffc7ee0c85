-- ===== src/Selector/Best.antt =====
-- pkg/lib/av/selector: what the chosen track is.
use tvproxy.Base.{
  ℕ, String, ◌≡◌, ◌≢◌, refl, sym, ap, ◌∙◌, Bool, true, false, not, ◌==◌, eq_iff, List, [], ◌∷◌,
  Option, none, some, arith, some_inj, if◌then◌else◌, keep, All, All-keep, keep-nothing, All-mono,
  List-cases, keep-All, Bool-cases, ◌⊎◌, inl, inr,
}
use mathlib.Core.List.{Mem, mem-cons_self, mem-cons_of_mem}
use tvproxy.Selector.{
  AudioTrack, or_all, without_ad, in_language, candidates, beats, best_track, best_index,
  select_audio,
}

unbeaten_trans : (a b c : AudioTrack) → beats a b ≡ false → beats b c ≡ false → beats a c ≡ false
unbeaten_trans a b c h k = ground (arith, h, k)

unbeaten_self : (a : AudioTrack) → beats a a ≡ false
unbeaten_self a = ground arith

beats_asym : (a b : AudioTrack) → beats a b ≡ true → beats b a ≡ false
beats_asym a b h = ground (arith, h)

two_unbeaten :
    (b t : AudioTrack)
    → (beats b (if beats t b then t else b) ≡ false)
      × (beats t (if beats t b then t else b) ≡ false)
two_unbeaten b t = elim (Bool-cases (beats t b)) [
  | inl h ↦ rw h (beats_asym t b h, unbeaten_self t)
  | inr h ↦ rw h (unbeaten_self b, h)
]

best_track-unbeaten :
    (b : AudioTrack) (ts : List AudioTrack)
    → (beats b (best_track b ts) ≡ false) × All (λ u. beats u (best_track b ts) ≡ false) ts
best_track-unbeaten b [] = (unbeaten_self b, tt)
best_track-unbeaten b (t ∷ ts) =
    let better = if beats t b then t else b in
    let rest = best_track-unbeaten better ts in
    let two = two_unbeaten b t in
    let last = best_track better ts in
    (unbeaten_trans b better last two.0 rest.0, (unbeaten_trans t better last two.1 rest.0, rest.1))

module _ {κ} (P : AudioTrack → Type κ) where
  either_holds : (c : Bool) (t b : AudioTrack) → P t → P b → P (if c then t else b)
  either_holds true t b pt pb = pt
  either_holds false t b pt pb = pb

  best_track-All : (b : AudioTrack) (ts : List AudioTrack) → P b → All P ts → P (best_track b ts)
  best_track-All b [] pb h = pb
  best_track-All b (t ∷ ts) pb h =
      best_track-All (if beats t b then t else b) ts (either_holds (beats t b) t b h.0 pb) h.1

  -- A filter that is dropped when it leaves nothing: what is kept passes it, or nothing passes it.
  keep-or_all :
      (p : AudioTrack → Bool) (ts : List AudioTrack)
      → All P ts
      → All (λ t. P t × ((p t ≡ true) ⊎ All (λ u. p u ≡ false) ts)) (or_all (keep p ts) ts)
  keep-or_all p ts h = elim (List-cases (keep p ts)) [
    | inl e ↦
        let nothing = keep-nothing p ts e in
        rw e (
          All-mono P (λ t. P t × ((p t ≡ true) ⊎ All (λ u. p u ≡ false) ts)) ts
            (λ t x. (x, inr nothing)) h)
    | inr c ↦
        let kept : All P (c.0 ∷ c.1) = rw c.2 at (All-keep P p ts h) in
        let pass : All (λ t. p t ≡ true) (c.0 ∷ c.1) = rw c.2 at (keep-All p ts) in
        rw c.2 (both p ts (c.0 ∷ c.1) kept pass)
  ]
    where
      both :
          (p : AudioTrack → Bool) (all xs : List AudioTrack)
          → All P xs
          → All (λ t. p t ≡ true) xs
          → All (λ t. P t × ((p t ≡ true) ⊎ All (λ u. p u ≡ false) all)) xs
      both p all [] h k = tt
      both p all (x ∷ xs) h k = ((h.0, inl k.0), both p all xs h.1 k.1)

members : (ts : List AudioTrack) → All (λ t. Mem t ts) ts
members [] = tt
members (t ∷ ts) = (
  mem-cons_self,
  All-mono (λ u. Mem u ts) (λ u. Mem u (t ∷ ts)) ts (λ u m. mem-cons_of_mem t m) (members ts),
)

-- `t` is a track of the stream that is no audio description, unless all are.
abbrev pub PlainTrack : List AudioTrack → AudioTrack → Type 0
PlainTrack tracks t = Mem t tracks × ((not t.is_ad ≡ true) ⊎ All (λ u. not u.is_ad ≡ false) tracks)

-- `t` is a track of the stream; it is no audio description unless all are; it is in the wanted
-- language unless none is wanted or no track left has it.
abbrev pub Eligible : String → List AudioTrack → AudioTrack → Type 0
Eligible language tracks t =
    PlainTrack tracks t
    × ((language ≡ "")
        ⊎ ((t.language == language) ≡ true)
        ⊎ All (λ u. (u.language == language) ≡ false) (without_ad tracks))

candidates-Eligible :
    (language : String) (tracks : List AudioTrack)
    → All (Eligible language tracks) (candidates language tracks)
unfolding candidates
candidates-Eligible language tracks =
    let described = keep-or_all (λ t. Mem t tracks) (λ t. not t.is_ad) tracks (members tracks) in
    elim (Bool-cases (language == "")) [
      | inl any_language ↦ rw any_language (
          All-mono (PlainTrack tracks) (Eligible language tracks) (without_ad tracks)
            (λ t d. (d, inl ((eq_iff language "").0 any_language))) described)
      | inr wanted ↦ rw wanted (
          All-mono
            (λ t.
              PlainTrack tracks t
              × (((t.language == language) ≡ true)
                  ⊎ All (λ u. (u.language == language) ≡ false) (without_ad tracks)))
            (Eligible language tracks)
            (or_all (keep (λ t. t.language == language) (without_ad tracks)) (without_ad tracks))
            (λ t d. (d.0, inr d.1))
            (keep-or_all (PlainTrack tracks) (λ t. t.language == language) (without_ad tracks)
              described))
    ]

none-ne-some : {i : ℕ} → ◌≢◌ {A = Option ℕ} none (some i)
none-ne-some h = cc

-- The chosen track is eligible, and no candidate has a better codec, or the same codec priority and
-- more channels.
pub select_audio-best :
    (language : String) (tracks : List AudioTrack) (i : ℕ)
    → select_audio language tracks ≡ some i
    → (t : AudioTrack) × (t.index ≡ i)
      × Eligible language tracks t
      × All (λ u. beats u t ≡ false) (candidates language tracks)
unfolding select_audio
select_audio-best language tracks i h = elim (List-cases (candidates language tracks)) [
  | inl e ↦ elim (none-ne-some (ap best_index (sym e) ∙ h)) [ ]
  | inr c ↦
      let eligible : All (Eligible language tracks) (c.0 ∷ c.1) =
        rw c.2 at (candidates-Eligible language tracks) in
      (
        best_track c.0 c.1,
        some_inj (ap best_index (sym c.2) ∙ h),
        best_track-All (Eligible language tracks) c.0 c.1 eligible.0 eligible.1,
        rw c.2 (best_track-unbeaten c.0 c.1),
      )
]

or_all-some :
    (xs : List AudioTrack) (t : AudioTrack) (ts : List AudioTrack) → or_all xs (t ∷ ts) ≢ []
or_all-some [] t ts e = cc
or_all-some (x ∷ xs) t ts e = cc

in_language-some :
    (language : String) (ts : List AudioTrack) → ts ≢ [] → in_language language ts ≢ []
in_language-some language [] n = elim (n refl) [ ]
in_language-some language (t ∷ ts) n =
    ground (arith, or_all-some (keep (λ u. u.language == language) (t ∷ ts)) t ts)

candidates-some :
    (language : String) (t : AudioTrack) (ts : List AudioTrack) → candidates language (t ∷ ts) ≢ []
unfolding candidates
candidates-some language t ts =
    in_language-some language (without_ad (t ∷ ts))
      (or_all-some (keep (λ u. not u.is_ad) (t ∷ ts)) t ts)

-- A stream with a track has a track chosen.
pub select_audio-some :
    (language : String) (t : AudioTrack) (ts : List AudioTrack)
    → (i : ℕ) × (select_audio language (t ∷ ts) ≡ some i)
unfolding select_audio
select_audio-some language t ts = elim (List-cases (candidates language (t ∷ ts))) [
  | inl e ↦ elim (candidates-some language t ts e) [ ]
  | inr c ↦ ((best_track c.0 c.1).index, ap best_index c.2)
]
