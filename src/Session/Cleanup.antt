-- ===== src/Session/Cleanup.antt =====
-- pkg/session/manager.go: when a session is stopped, and what its end removes.
use tvproxy.Base.{
  ℕ, ◌<◌, String, ◌≡◌, ◌≢◌, refl, ◌∙◌, inl, inr, Bool, false, [], ◌∷◌, none, some, arith, length,
  remove as drop_row, find-remove, find-remove_ne, nat_eq, nat_eq→eq, if_true, if_false, Bool-cases,
  Option-cases, ap,
}
use tvproxy.Session.{
  Session, Consumer, Kind, without, add_consumer, remove_consumer, consumer_count,
}
use tvproxy.Session.Manager.{
  StartOpts, Task, Manager, key_of, on_session, put, consumer, get_or_create, stop_and_cleanup,
  finish, ends, shut_one, shut_all, shutdown, leave, test_left, start_cleanup, detach,
  finish_detached, add_recording_consumer,
}
use tvproxy.Session.Manager
use tvproxy.Session.Validity.{
  IsValid, IsValid-of_same, drop-IsValid, get_or_create-IsValid, remove-IsValid, test_left-same,
}
use tvproxy.Session.Sharing.{put-get, get_or_create_live}
use tvproxy.Session.Leaving.{cleanup_of, leave-get, remove_last}

detach_stale :
    (t : Task) (m : Manager) (s : Session)
    → Manager.get t.channel_id m ≡ some s
    → s.ref ≢ t.ref
    → detach t m ≡ (m, none)
unfolding detach
detach_stale t m s e n = rw (e, detach) (if_false (nat_eq s.ref t.ref) _ _ (ground arith))

detach_own :
    (t : Task) (m : Manager) (s : Session)
    → Manager.get t.channel_id m ≡ some s
    → s.ref ≡ t.ref
    → detach t m ≡ (record m { sessions = drop_row key_of t.channel_id m.sessions }, some s)
unfolding detach
detach_own t m s e own = rw (e, detach) (if_true (nat_eq s.ref t.ref) _ _ (ground arith))

detach_absent :
    (t : Task) (m : Manager) → Manager.get t.channel_id m ≡ none → detach t m ≡ (m, none)
unfolding detach
detach_absent t m e = rw (e, detach) refl

-- A cleanup of a channel with no session does nothing.
pub stop_and_cleanup_absent :
    (t : Task) (m : Manager) → Manager.get t.channel_id m ≡ none → stop_and_cleanup t m ≡ m
unfolding stop_and_cleanup
stop_and_cleanup_absent t m e = ap (finish_detached t.channel_id) (detach_absent t m e)

-- A cleanup that was started for a session which has been replaced since does nothing.
pub stop_and_cleanup_stale :
    (t : Task) (m : Manager) (s : Session)
    → Manager.get t.channel_id m ≡ some s
    → s.ref ≢ t.ref
    → stop_and_cleanup t m ≡ m
unfolding stop_and_cleanup
stop_and_cleanup_stale t m s e n = ap (finish_detached t.channel_id) (detach_stale t m s e n)

pub finish-keeps :
    (channel : String) (s : Session) (m : Manager)
    → ((finish channel s m).sessions ≡ m.sessions) × ((finish channel s m).next_ref ≡ m.next_ref)
unfolding finish
finish-keeps channel s m = ground arith

get-same :
    (k : String) (m n : Manager) → n.sessions ≡ m.sessions → Manager.get k n ≡ Manager.get k m
unfolding Manager.get
get-same k m n e = rw (e, Manager.get)

-- A cleanup whose session is still there.
stop_and_cleanup_own :
    (t : Task) (m : Manager) (s : Session)
    → Manager.get t.channel_id m ≡ some s
    → s.ref ≡ t.ref
    → stop_and_cleanup t m
      ≡ finish t.channel_id s (record m { sessions = drop_row key_of t.channel_id m.sessions })
unfolding stop_and_cleanup
stop_and_cleanup_own t m s e own = ap (finish_detached t.channel_id) (detach_own t m s e own)

get-dropped :
    (k : String) (m n : Manager)
    → IsValid m
    → n.sessions ≡ drop_row key_of k m.sessions
    → Manager.get k n ≡ none
unfolding Manager.get
get-dropped k m n v e = rw (e, Manager.get, find-remove key_of k m.sessions v.distinct)

get-dropped_ne :
    (j k : String) (m n : Manager)
    → j ≢ k
    → n.sessions ≡ drop_row key_of k m.sessions
    → Manager.get j n ≡ Manager.get j m
unfolding Manager.get
get-dropped_ne j k m n d e = rw (e, Manager.get, find-remove_ne key_of j k m.sessions d)

-- A cleanup keeps the map valid, and no other channel's session is touched.
pub stop_and_cleanup-IsValid :
    (t : Task) (m : Manager) (other : String)
    → IsValid m
    → other ≢ t.channel_id
    → IsValid (stop_and_cleanup t m)
      × (Manager.get other (stop_and_cleanup t m) ≡ Manager.get other m)
unfolding stop_and_cleanup
stop_and_cleanup-IsValid t m other v n = elim (Option-cases (Manager.get t.channel_id m)) [
  | inl e ↦ rw (stop_and_cleanup_absent t m e) (v, refl)
  | inr (s, e) ↦ elim (Bool-cases (nat_eq s.ref t.ref)) [
    | inr stale ↦ rw (stop_and_cleanup_stale t m s e (ground (arith, stale))) (v, refl)
    | inl mine ↦
        let dropped : Manager = record m { sessions = drop_row key_of t.channel_id m.sessions } in
        let kept = finish-keeps t.channel_id s dropped in
        rw (stop_and_cleanup_own t m s e (nat_eq→eq s.ref t.ref mine)) (
          IsValid-of_same dropped _ kept.0 kept.1 (drop-IsValid t.channel_id m v),
          get-dropped_ne other t.channel_id m _ n kept.0,
        )
  ]
]

get-tested : (k : String) (t : Task) (m : Manager) → Manager.get k (test_left t m) ≡ Manager.get k m
get-tested k t m = get-same k m (test_left t m) (test_left-same t m).0

left-get :
    (channel id : String) (m : Manager) (s : Session)
    → Manager.get channel m ≡ some s
    → Manager.get channel (Manager.remove channel id m) ≡ some (remove_consumer id s).0
unfolding Manager.remove
left-get channel id m s e =
    let q = leave-get channel id m s e in
    elim (Option-cases (leave channel id m).1) [
      | inl n ↦ rw (n, Manager.remove) q
      | inr (t, n) ↦ rw (n, Manager.remove) (get-tested channel t (leave channel id m).0 ∙ q)
    ]

left-live : (id : String) (s : Session) → s.done ≡ false → (remove_consumer id s).0.done ≡ false
unfolding remove_consumer
left-live id s e = e

joined-ref :
    (id : String) (s : Session) (c : Consumer)
    → (add_consumer c (remove_consumer id s).0).ref ≡ s.ref
unfolding add_consumer remove_consumer
joined-ref id s c = refl

add_consumer-pos : (c : Consumer) (s : Session) → 0 < consumer_count (add_consumer c s)
unfolding add_consumer
add_consumer-pos c s = omega arith

joined-count :
    (k : String) (m : Manager) (s : Session)
    → Manager.get k m ≡ some s
    → 0 < consumer_count s
    → 0 < Manager.count k m
unfolding Manager.count
joined-count k m s e h = rw (e, Manager.count) h

-- A viewer who joins between the leaving of the last consumer and the cleanup that it started
-- loses the session: the cleanup checks that the session is still the same, not that nobody uses
-- it.
pub late_join_lost :
    (made : Bool) (opts : StartOpts) (id fresh new_id : String) (kind : Kind) (now : ℕ)
    (m : Manager) (s : Session)
    → IsValid m
    → Manager.get opts.channel_id m ≡ some s
    → s.done ≡ false
    → without id s.consumers ≡ []
    → let left = Manager.remove opts.channel_id id m in
      let joined = (get_or_create made opts new_id fresh kind now left).0 in
      (left.cleanups ≡ cleanup_of opts.channel_id s ∷ m.cleanups)
      × (0 < Manager.count opts.channel_id joined)
      × (Manager.get opts.channel_id (stop_and_cleanup (cleanup_of opts.channel_id s) joined)
          ≡ none)
late_join_lost made opts id fresh new_id kind now m s v e live alone =
    let ch : String = opts.channel_id in
    let left : Manager = Manager.remove ch id m in
    let s' : Session = (remove_consumer id s).0 in
    let s'' : Session = add_consumer (consumer fresh kind now) s' in
    let there = left-get ch id m s e in
    let r =
      get_or_create_live made opts new_id fresh kind now left s' there (left-live id s live) in
    let joined = put-get ch (add_consumer (consumer fresh kind now)) left s' there in
    let valid =
      get_or_create-IsValid made opts new_id fresh kind now left (remove-IsValid ch id m v) in
    let u : Manager = put ch (add_consumer (consumer fresh kind now)) left in
    let own = stop_and_cleanup_own (cleanup_of ch s) u s'' joined (joined-ref id s _) in
    let kept = finish-keeps ch s'' (record u { sessions = drop_row key_of ch u.sessions }) in
    (
      remove_last ch id m s e
          ∙ if_true (nat_eq (length (without id s.consumers)) 0) (cleanup_of ch s ∷ m.cleanups)
              m.cleanups (rw alone),
      rw r (joined-count ch u s'' joined (add_consumer-pos _ s')),
      rw r (rw own (get-dropped ch u _ (rw r at valid) kept.0)),
    )
