-- ===== src/Store/Recordings/Laws.antt =====
-- pkg/store/scheduled_recording.go: the rows that are still to be made do not overlap, and what
-- keeps it so. `Disjoint` says nothing of how the store searches.
use tvproxy.Base.{
  String, ◌≡◌, Bool, true, false, not, ◌&&◌, ◌==◌, List, [], ◌∷◌, ◌++◌, ◌⊎◌, some, arith, ltb, keep,
  All, find, modify, remove, All-append, Bool-cases, inl, inr,
}
use tvproxy.Store.Recordings.{
  Recording, id_of, is_excluded, clashes, list_by_channel_and_time_range, Recordings,
}

-- Two recordings of one user on one channel, both still to be made, share some time.
abbrev pub conflict : Recording → Recording → Bool
conflict r s =
    (r.channel_id == s.channel_id && r.user_id == s.user_id)
    && (not (is_excluded r.status) && not (is_excluded s.status))
    && (ltb r.start_at s.stop_at && ltb s.start_at r.stop_at)

abbrev pub Disjoint : List Recording → Type 0
Disjoint [] = Unit {0}
Disjoint (r ∷ rs) = All (λ s. conflict r s ≡ false) rs × Disjoint rs

-- A change that can at most take a recording out of the plan.
abbrev pub Narrows : (Recording → Recording) → Recording → Type 0
Narrows f r =
    ((f r).id ≡ r.id)
    × ((f r).channel_id ≡ r.channel_id)
    × ((f r).user_id ≡ r.user_id)
    × ((f r).start_at ≡ r.start_at)
    × ((f r).stop_at ≡ r.stop_at)
    × ((is_excluded r.status ≡ false) ⊎ (is_excluded (f r).status ≡ true))

conflict-narrow_right :
    (f : Recording → Recording) (r s : Recording)
    → Narrows f s
    → conflict r s ≡ false
    → conflict r (f s) ≡ false
conflict-narrow_right f r s (e₁, e₂, e₃, e₄, e₅, e₆) h = rw (e₂, e₃, e₄, e₅) (ground arith)

conflict-narrow_left :
    (f : Recording → Recording) (r s : Recording)
    → Narrows f r
    → conflict r s ≡ false
    → conflict (f r) s ≡ false
conflict-narrow_left f r s (e₁, e₂, e₃, e₄, e₅, e₆) h = rw (e₂, e₃, e₄, e₅) (ground arith)

All-conflict-modify :
    (k : String) (f : Recording → Recording) (r a : Recording) (rs : List Recording)
    → find id_of k rs ≡ some a
    → Narrows f a
    → All (λ s. conflict r s ≡ false) rs
    → All (λ s. conflict r s ≡ false) (modify id_of k f rs)
All-conflict-modify k f r a [] e n h = tt
All-conflict-modify k f r a (x ∷ rs) e n h = elim (Bool-cases (x.id == k)) [
  | inl hit ↦
      let same : x ≡ a = ground (arith, hit) in
      rw hit (conflict-narrow_right f r x (rw same n) h.0, h.1)
  | inr miss ↦ rw miss (h.0, All-conflict-modify k f r a rs (rw miss at e) n h.1)
]

All-conflict_left :
    (f : Recording → Recording) (r : Recording) (rs : List Recording)
    → Narrows f r
    → All (λ s. conflict r s ≡ false) rs
    → All (λ s. conflict (f r) s ≡ false) rs
All-conflict_left f r [] n h = tt
All-conflict_left f r (s ∷ rs) n h =
    (conflict-narrow_left f r s n h.0, All-conflict_left f r rs n h.1)

pub Disjoint-modify :
    (k : String) (f : Recording → Recording) (a : Recording) (rs : List Recording)
    → find id_of k rs ≡ some a
    → Narrows f a
    → Disjoint rs
    → Disjoint (modify id_of k f rs)
Disjoint-modify k f a [] e n d = tt
Disjoint-modify k f a (x ∷ rs) e n d = elim (Bool-cases (x.id == k)) [
  | inl hit ↦
      let same : x ≡ a = ground (arith, hit) in
      rw hit (All-conflict_left f x rs (rw same n) d.0, d.1)
  | inr miss ↦ rw miss (
    All-conflict-modify k f x a rs (rw miss at e) n d.0,
    Disjoint-modify k f a rs (rw miss at e) n d.1,
  )
]

All-conflict-remove :
    (k : String) (r : Recording) (rs : List Recording)
    → All (λ s. conflict r s ≡ false) rs
    → All (λ s. conflict r s ≡ false) (remove id_of k rs)
All-conflict-remove k r [] h = tt
All-conflict-remove k r (s ∷ rs) h = ground (arith, All-conflict-remove k r rs h.1)

pub Disjoint-remove :
    (k : String) (rs : List Recording) → Disjoint rs → Disjoint (remove id_of k rs)
Disjoint-remove k [] d = tt
Disjoint-remove k (r ∷ rs) d = elim (Bool-cases (r.id == k)) [
  | inl hit ↦ rw hit d.1
  | inr miss ↦ rw miss (All-conflict-remove k r rs d.0, Disjoint-remove k rs d.1)
]

-- What the duplicate search leaves out does not clash with a recording of that channel, user and
-- time.
no_clash_conflict :
    (r s : Recording)
    → clashes r.channel_id r.user_id r.start_at r.stop_at s ≡ false
    → conflict s r ≡ false
unfolding clashes
no_clash_conflict r s h = ground (arith)

Disjoint-append :
    (rs : List Recording) (r : Recording)
    → Disjoint rs
    → All (λ s. conflict s r ≡ false) rs
    → Disjoint (rs ++ r ∷ [])
Disjoint-append [] r d h = (tt, tt)
Disjoint-append (s ∷ rs) r d h =
    (All-append (λ x. conflict s x ≡ false) rs (r ∷ []) d.0 (h.0, tt), Disjoint-append rs r d.1 h.1)

All-no_clash :
    (r : Recording) (rs : List Recording)
    → keep (clashes r.channel_id r.user_id r.start_at r.stop_at) rs ≡ []
    → All (λ s. conflict s r ≡ false) rs
All-no_clash r [] h = tt
All-no_clash r (s ∷ rs) h =
    elim (Bool-cases (clashes r.channel_id r.user_id r.start_at r.stop_at s)) [
      | inl hit ↦ absurd (ground (arith, hit))
      | inr miss ↦ (no_clash_conflict r s miss, All-no_clash r rs (rw miss at h))
    ]

-- With no duplicate found, the new recording keeps the plan free of overlaps.
pub Disjoint-append_new :
    (r : Recording) (t : Recordings)
    → Disjoint t.rows
    → list_by_channel_and_time_range r.channel_id r.user_id r.start_at r.stop_at t ≡ []
    → Disjoint (t.rows ++ r ∷ [])
unfolding list_by_channel_and_time_range
Disjoint-append_new r t d h = Disjoint-append t.rows r d (All-no_clash r t.rows h)
