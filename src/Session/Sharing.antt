-- ===== src/Session/Sharing.antt =====
-- pkg/session/manager.go: all consumers of a channel share one session.
use tvproxy.Base.{
  ℕ, String, ◌≡◌, ◌≢◌, refl, sym, ◌∙◌, inl, inr, Bool, true, false, Option, none, some, arith, find,
  find-append_new, find-modify, find-modify_ne, find-remove, Bool-cases, Option-cases, ap, if_false,
  subst, some_inj,
}
use mathlib.Core.List.{Mem, mem-cons_self}
use tvproxy.Session.{Session, Consumer, Kind, add_consumer}
use tvproxy.Session.Manager.{
  StartOpts, Task, Manager, key_of, on_session, put, consumer, new_session, create, get_or_create,
  cleanup_done_session, stop_and_cleanup, finish, pipeline_ends, add_recording_consumer, leave,
  test_left,
}
use tvproxy.Session.Manager
use tvproxy.Session.Validity.{IsValid, assign-append, get-find}

pub get-none : (k : String) (m : Manager) → Manager.get k m ≡ none → find key_of k m.sessions ≡ none
unfolding Manager.get
get-none k m e = ground arith

pub put-get :
    (k : String) (f : Session → Session) (m : Manager) (s : Session)
    → Manager.get k m ≡ some s
    → Manager.get k (put k f m) ≡ some (f s)
unfolding Manager.get
put-get k f m s e = rw (
  find-modify key_of k (on_session f) m.sessions (k, s) (λ p. refl) (get-find k m s e),
  Manager.get,
)

pub put-get_ne :
    (j k : String) (f : Session → Session) (m : Manager)
    → j ≢ k
    → Manager.get j (put k f m) ≡ Manager.get j m
unfolding Manager.get
put-get_ne j k f m n =
    rw (find-modify_ne key_of j k (on_session f) m.sessions (λ p. refl) n, Manager.get)

joined-get :
    (k : String) (c : Consumer) (m : Manager) (x s : Session) (d : String)
    → Manager.get k m ≡ some x
    → ◌≡◌ {A = Option (Session × String)} (some (add_consumer c x, c.id)) (some (s, d))
    → (Manager.get k (put k (add_consumer c) m) ≡ some s) × (d ≡ c.id) × Mem c s.consumers
unfolding add_consumer
joined-get k c m x s d e h =
    let given : (add_consumer c x, c.id) ≡ (s, d) = some_inj h in
    let same : add_consumer c x ≡ s = ap (λ (q : Session × String). q.0) given in
    (
      put-get k (add_consumer c) m x e ∙ ap some same,
      sym (ap (λ (q : Session × String). q.1) given),
      subst (λ (z : Session). Mem c z.consumers) same mem-cons_self,
    )

create-get :
    (made : Bool) (opts : StartOpts) (id : String) (c : Consumer) (m : Manager) (s : Session)
    (d : String)
    → find key_of opts.channel_id m.sessions ≡ none
    → (create made opts id c m).1 ≡ some (s, d)
    → (Manager.get opts.channel_id (create made opts id c m).0 ≡ some s)
      × (d ≡ c.id)
      × Mem c s.consumers
unfolding create Manager.get add_consumer
create-get false opts id c m s d e h = absurd (ground (arith, h))
create-get true opts id c m s d e h =
    let new : Session = add_consumer c (new_session opts id m.next_ref) in
    let row = assign-append opts.channel_id new m.sessions e in
    let found = find-append_new key_of opts.channel_id m.sessions (opts.channel_id, new) refl e in
    let given : (new, c.id) ≡ (s, d) = some_inj h in
    let same : new ≡ s = ap (λ (q : Session × String). q.0) given in
    (
      rw (row, found, Manager.get) (ap some same),
      sym (ap (λ (q : Session × String). q.1) given),
      subst (λ (z : Session). Mem c z.consumers) same mem-cons_self,
    )

-- A session that is not done is joined.
pub get_or_create_live :
    (made : Bool) (opts : StartOpts) (id fresh : String) (kind : Kind) (now : ℕ) (m : Manager)
    (s : Session)
    → Manager.get opts.channel_id m ≡ some s
    → s.done ≡ false
    → get_or_create made opts id fresh kind now m ≡ (
      put opts.channel_id (add_consumer (consumer fresh kind now)) m,
      some (add_consumer (consumer fresh kind now) s, fresh),
    )
unfolding get_or_create
get_or_create_live made opts id fresh kind now m s e live =
    rw (e, get_or_create) (if_false s.done _ _ live)

-- After a join that succeeds the channel has the session that the caller was given, and the
-- caller's consumer, of the identifier that was given, is one of its consumers.
pub get_or_create-get :
    (made : Bool) (opts : StartOpts) (id fresh : String) (kind : Kind) (now : ℕ) (m : Manager)
    (s : Session) (c : String)
    → IsValid m
    → (get_or_create made opts id fresh kind now m).1 ≡ some (s, c)
    → (Manager.get opts.channel_id (get_or_create made opts id fresh kind now m).0 ≡ some s)
      × (c ≡ fresh)
      × Mem (consumer fresh kind now) s.consumers
unfolding get_or_create cleanup_done_session
get_or_create-get made opts id fresh kind now m s c v h =
    elim (Option-cases (Manager.get opts.channel_id m)) [
      | inl e ↦
          rw (e, get_or_create)
            (create-get made opts id _ m s c (get-none opts.channel_id m e)
              (rw (e, get_or_create) at h))
      | inr (x, e) ↦ elim (Bool-cases x.done) [
        | inl over ↦
            rw (e, get_or_create, over)
              (create-get made opts id _ _ s c
                (find-remove key_of opts.channel_id m.sessions v.distinct)
                (rw (e, get_or_create, over) at h))
        | inr live ↦
            let r = get_or_create_live made opts id fresh kind now m x e live in
            rw r (
              joined-get opts.channel_id (consumer fresh kind now) m x s c e
                (ap (λ (q : Manager × Option (Session × String)). q.1) (sym r) ∙ h))
      ]
    ]
