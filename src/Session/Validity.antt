-- ===== src/Session/Validity.antt =====
-- pkg/session/manager.go: what every state of the map of sessions keeps.
use tvproxy.Base.{
  ℕ, ◌<◌, String, ◌≡◌, refl, ◌∙◌, inl, inr, Bool, true, false, List, [], ◌∷◌, ◌++◌, none, some,
  arith, All, find, modify, remove as drop_row, Distinct, Fresh-of_find, find-remove,
  Distinct-append, Distinct-modify, Distinct-remove, key-find, Bool-cases, Option-cases, All-append,
}
use tvproxy.Base.Maps.{put as assign}
use tvproxy.Session.{Session, Consumer, Kind, add_consumer, remove_consumer}
use tvproxy.Session.Manager.{
  StartOpts, Task, Manager, key_of, on_session, put, consumer, new_session, create, get_or_create,
  cleanup_done_session, stop_and_cleanup, finish, pipeline_ends, add_recording_consumer, leave,
  test_left,
}
use tvproxy.Session.Manager

-- One session to a channel, each under its own channel's key and with an address of its own age.
pub record IsValid (m : Manager) : Type 0 where
  pub distinct : Distinct key_of m.sessions
  pub keyed : All (λ p. p.1.channel_id ≡ p.0) m.sessions
  pub known : All (λ p. p.1.ref < m.next_ref) m.sessions

module _ (P : String × Session → Type 0) where
  pub All-modify :
      (k : String) (f : Session → Session) (ps : List (String × Session))
      → ((c : String) (s : Session) → P (c, s) → P (c, f s))
      → All P ps
      → All P (modify key_of k (on_session f) ps)
  All-modify k f [] h a = tt
  All-modify k f ((c, s) ∷ ps) h a = ground (arith, h c s a.0, All-modify k f ps h a.1)

  pub All-drop_row :
      (k : String) (ps : List (String × Session)) → All P ps → All P (drop_row key_of k ps)
  All-drop_row k [] a = tt
  All-drop_row k (p ∷ ps) a = ground (arith, All-drop_row k ps a.1)

  All-weaken :
      (Q : String × Session → Type 0) (ps : List (String × Session))
      → ((p : String × Session) → P p → Q p)
      → All P ps
      → All Q ps
  All-weaken Q [] h a = tt
  All-weaken Q (p ∷ ps) h a = (h p a.0, All-weaken Q ps h a.1)

pub put-IsValid :
    (k : String) (f : Session → Session) (m : Manager)
    → ((s : Session) → ((f s).channel_id ≡ s.channel_id) × ((f s).ref ≡ s.ref))
    → IsValid m
    → IsValid (put k f m)
put-IsValid k f m same v = record {
  distinct = Distinct-modify key_of k (on_session f) m.sessions (λ p. refl) v.distinct;
  keyed = All-modify _ k f m.sessions (λ c s h. (same s).0 ∙ h) v.keyed;
  known = All-modify _ k f m.sessions (λ c s h. rw ((same s).1) h) v.known;
}

pub drop-IsValid :
    (k : String) (m : Manager)
    → IsValid m
    → IsValid (record m { sessions = drop_row key_of k m.sessions })
drop-IsValid k m v = record {
  distinct = Distinct-remove key_of k m.sessions v.distinct;
  keyed = All-drop_row _ k m.sessions v.keyed;
  known = All-drop_row _ k m.sessions v.known;
}

-- A channel with no session gets a row of its own.
pub assign-append :
    (k : String) (s : Session) (ps : List (String × Session))
    → find key_of k ps ≡ none
    → assign k s ps ≡ ps ++ (k, s) ∷ []
assign-append k s [] e = refl
assign-append k s ((c, x) ∷ ps) e = ground (arith, e, assign-append k s ps)

create-IsValid :
    (made : Bool) (opts : StartOpts) (id : String) (c : Consumer) (m : Manager)
    → find key_of opts.channel_id m.sessions ≡ none
    → IsValid m
    → IsValid (create made opts id c m).0
unfolding create add_consumer
create-IsValid false opts id c m e v = v
create-IsValid true opts id c m e v = rw (assign-append opts.channel_id _ m.sessions e) (record {
  distinct = Distinct-append key_of m.sessions _ v.distinct (Fresh-of_find key_of _ m.sessions e);
  keyed = All-append _ m.sessions _ v.keyed (refl, tt);
  known =
      All-append _ m.sessions _ (All-weaken _ _ m.sessions (λ p h. omega arith) v.known)
        (omega arith, tt);
})

pub get-find :
    (k : String) (m : Manager) (s : Session)
    → Manager.get k m ≡ some s
    → find key_of k m.sessions ≡ some (k, s)
unfolding Manager.get
get-find k m s e = elim (Option-cases (find key_of k m.sessions)) [
  | inl missing ↦ absurd (ground (arith, missing, e))
  | inr ((c, x), found) ↦
      let own : c ≡ k = key-find key_of k m.sessions (c, x) found in
      let same : x ≡ s = ground (arith, found, e) in rw found (rw (own, same) refl)
]

add_consumer-same :
    (c : Consumer) (s : Session)
    → ((add_consumer c s).channel_id ≡ s.channel_id) × ((add_consumer c s).ref ≡ s.ref)
unfolding add_consumer
add_consumer-same c s = (refl, refl)

-- Joining a channel keeps the map valid: one session to a channel, however often it is joined.
pub get_or_create-IsValid :
    (made : Bool) (opts : StartOpts) (id fresh : String) (kind : Kind) (now : ℕ) (m : Manager)
    → IsValid m
    → IsValid (get_or_create made opts id fresh kind now m).0
unfolding get_or_create Manager.get cleanup_done_session
get_or_create-IsValid made opts id fresh kind now m v =
    let d = drop-IsValid opts.channel_id m v in
    elim (Option-cases (find key_of opts.channel_id m.sessions)) [
      | inl e ↦ rw (e, get_or_create, Manager.get) (create-IsValid made opts id _ m e v)
      | inr (p, e) ↦ elim (Bool-cases p.1.done) [
        | inl over ↦
            rw (e, get_or_create, Manager.get, over)
              (create-IsValid made opts id _ _
                (find-remove key_of opts.channel_id m.sessions v.distinct)
                (record { distinct = d.distinct; keyed = d.keyed; known = d.known }))
        | inr live ↦
            rw (e, get_or_create, Manager.get, live)
              (put-IsValid opts.channel_id _ m (λ s. add_consumer-same (consumer fresh kind now) s)
                v)
      ]
    ]

pub IsValid-of_same :
    (m n : Manager) → n.sessions ≡ m.sessions → n.next_ref ≡ m.next_ref → IsValid m → IsValid n
IsValid-of_same m n e r v = record {
  distinct = rw e v.distinct;
  keyed = rw e v.keyed;
  known = rw (e, r) v.known;
}

remove_consumer-same :
    (id : String) (s : Session)
    → (((remove_consumer id s).0).channel_id ≡ s.channel_id)
      × (((remove_consumer id s).0).ref ≡ s.ref)
unfolding remove_consumer
remove_consumer-same id s = (refl, refl)

leave-IsValid : (channel id : String) (m : Manager) → IsValid m → IsValid (leave channel id m).0
unfolding leave
leave-IsValid channel id m v = elim (Option-cases (Manager.get channel m)) [
  | inl e ↦ rw (e, leave) v
  | inr (s, e) ↦
      rw (e, leave)
        (put-IsValid channel (λ x. (remove_consumer id x).0) m (remove_consumer-same id) v)
]

-- The test of a session that nobody has left changes no session.
pub test_left-same :
    (t : Task) (m : Manager)
    → ((test_left t m).sessions ≡ m.sessions) × ((test_left t m).next_ref ≡ m.next_ref)
unfolding test_left
test_left-same t m = elim (Option-cases (Manager.get t.channel_id m)) [
  | inl e ↦ rw (e, test_left) (refl, refl)
  | inr (s, e) ↦ rw (e, test_left) (ground arith)
]

-- Leaving a channel keeps the map valid.
pub remove-IsValid :
    (channel id : String) (m : Manager) → IsValid m → IsValid (Manager.remove channel id m)
unfolding Manager.remove
remove-IsValid channel id m v =
    let q = leave-IsValid channel id m v in
    elim (Option-cases (leave channel id m).1) [
      | inl e ↦ rw (e, Manager.remove) q
      | inr (t, e) ↦
          let same = test_left-same t (leave channel id m).0 in
          rw (e, Manager.remove) (IsValid-of_same _ _ same.0 same.1 q)
    ]
