-- ===== src/Session/Calls.antt =====
-- pkg/session/manager.go: the calls of the manager, in any order, and that a session whose channel
-- has lost it never comes back.
use tvproxy.Base.{
  ℕ, String, ◌≡◌, refl, inl, inr, Bool, List, [], ◌∷◌, Option, none, some, remove as drop_row,
  Option-cases, if_of_both, nat_eq, not, ◌&&◌,
}
use tvproxy.Session.{
  Session, Consumer, Kind, add_consumer, remove_consumer, record_it, recording, mark_done,
  has_recording_consumer,
}
use tvproxy.Session.Manager.{
  StartOpts, Task, Manager, key_of, put, consumer, create, get_or_create, cleanup_done_session,
  new_session, add_recording_consumer, leave, test_left, detach, finish, finish_detached,
  stop_and_cleanup, pipeline_ends, shut_one, shut_all, shutdown, ends,
}
use tvproxy.Session.Manager
use tvproxy.Session.Validity.{test_left-same}
use tvproxy.Session.Cleanup.{finish-keeps}
use tvproxy.Session.Past.{
  IsPast, IsPast-of_same, put-IsPast, drop-IsPast, create-IsPast, cleaned-IsPast,
}

-- What the manager is called for, and the parts of `RemoveConsumer` and the ends of goroutines that
-- take their turn between the calls.
pub data Call : Type 0 where
  join : Bool → StartOpts → String → String → Kind → ℕ → Call
  begin_recording : String → ℕ → String → Call
  leave_channel : String → String → Call
  look_for_recording : Task → Call
  clean_up : Task → Call
  -- The two parts of a cleanup, each at its own time.
  begin_cleanup : Task → Call
  end_cleanup : String → Session → Call
  pipeline_ended : Task → Call
  shut_down : Call

abbrev pub take_call : Call → Manager → Manager
take_call (join made opts id fresh kind now) m = (get_or_create made opts id fresh kind now m).0
take_call (begin_recording fresh now channel) m = (add_recording_consumer fresh now channel m).0
take_call (leave_channel channel id) m = (leave channel id m).0
take_call (look_for_recording t) m = test_left t m
take_call (clean_up t) m = stop_and_cleanup t m
take_call (begin_cleanup t) m = (detach t m).0
take_call (end_cleanup channel s) m = finish channel s m
take_call (pipeline_ended t) m = pipeline_ends t m
take_call shut_down m = shutdown m

abbrev pub take_calls : List Call → Manager → Manager
take_calls [] m = m
take_calls (c ∷ cs) m = take_calls cs (take_call c m)

added-ref : (c : Consumer) (s : Session) → (add_consumer c s).ref ≡ s.ref
unfolding add_consumer
added-ref c s = refl

-- A session is made with a reference that no earlier one had.
pub create-IsPast_cleaned :
    (t : Task) (made : Bool) (opts : StartOpts) (id k : String) (c : Consumer) (s : Session)
    (m : Manager)
    → IsPast t m
    → IsPast t (create made opts id c (cleanup_done_session k s m)).0
create-IsPast_cleaned t made opts id k c s m h =
    create-IsPast t made opts id c (cleanup_done_session k s m) (cleaned-IsPast t k s m h)

join-IsPast :
    (t : Task) (made : Bool) (opts : StartOpts) (id fresh : String) (kind : Kind) (now : ℕ)
    (m : Manager)
    → IsPast t m
    → IsPast t (get_or_create made opts id fresh kind now m).0
unfolding get_or_create
join-IsPast t made opts id fresh kind now m h =
    let c = consumer fresh kind now in
    elim (Option-cases (Manager.get opts.channel_id m)) [
      | inl e ↦ rw (e, get_or_create) (create-IsPast t made opts id c m h)
      | inr (s, e) ↦
          rw (e, get_or_create)
            (if_of_both (λ (r : Manager × Option (Session × String)). IsPast t r.0) s.done
              (create made opts id c (cleanup_done_session opts.channel_id s m))
              (put opts.channel_id (add_consumer c) m, some (add_consumer c s, fresh))
              (create-IsPast_cleaned t made opts id opts.channel_id c s m h)
              (put-IsPast t opts.channel_id (add_consumer c) m (added-ref c) h))
    ]

recorded-ref : (c : Consumer) (s : Session) → (record_it (add_consumer c s)).ref ≡ s.ref
unfolding record_it add_consumer
recorded-ref c s = refl

recording-IsPast :
    (t : Task) (fresh : String) (now : ℕ) (channel : String) (m : Manager)
    → IsPast t m
    → IsPast t (add_recording_consumer fresh now channel m).0
unfolding add_recording_consumer
recording-IsPast t fresh now channel m h = elim (Option-cases (Manager.get channel m)) [
  | inl e ↦ rw (e, add_recording_consumer) h
  | inr (s, e) ↦
      rw (e, add_recording_consumer)
        (put-IsPast t channel (λ s. record_it (add_consumer (consumer fresh recording now) s)) m
          (λ s. recorded-ref (consumer fresh recording now) s) h)
]

removed-ref : (id : String) (s : Session) → (remove_consumer id s).0.ref ≡ s.ref
unfolding remove_consumer
removed-ref id s = refl

leave-IsPast :
    (t : Task) (channel id : String) (m : Manager) → IsPast t m → IsPast t (leave channel id m).0
unfolding leave
leave-IsPast t channel id m h = elim (Option-cases (Manager.get channel m)) [
  | inl e ↦ rw (e, leave) h
  | inr (s, e) ↦
      rw (e, leave) (put-IsPast t channel (λ x. (remove_consumer id x).0) m (removed-ref id) h)
]

detach-IsPast : (t u : Task) (m : Manager) → IsPast t m → IsPast t (detach u m).0
unfolding detach
detach-IsPast t u m h = elim (Option-cases (Manager.get u.channel_id m)) [
  | inl e ↦ rw (e, detach) h
  | inr (s, e) ↦
      rw (e, detach)
        (if_of_both (λ (r : Manager × Option Session). IsPast t r.0) (nat_eq s.ref u.ref)
          (record m { sessions = drop_row key_of u.channel_id m.sessions }, some s) (m, none)
          (drop-IsPast t u.channel_id m h) h)
]

finished-IsPast :
    (t : Task) (channel : String) (r : Manager × Option Session)
    → IsPast t r.0
    → IsPast t (finish_detached channel r)
finished-IsPast t channel (m, none) h = h
finished-IsPast t channel (m, some s) h =
    let same = finish-keeps channel s m in IsPast-of_same t m _ same.0 same.1 h

cleanup-IsPast : (t u : Task) (m : Manager) → IsPast t m → IsPast t (stop_and_cleanup u m)
unfolding stop_and_cleanup
cleanup-IsPast t u m h = finished-IsPast t u.channel_id (detach u m) (detach-IsPast t u m h)

done-ref : (s : Session) → (mark_done s).ref ≡ s.ref
unfolding mark_done
done-ref s = refl

ended-IsPast : (t u : Task) (m : Manager) → IsPast t m → IsPast t (pipeline_ends u m)
unfolding pipeline_ends
ended-IsPast t u m h = elim (Option-cases (Manager.get u.channel_id m)) [
  | inl e ↦ rw (e, pipeline_ends) h
  | inr (s, e) ↦
      rw (e, pipeline_ends)
        (if_of_both (IsPast t) (nat_eq s.ref u.ref) (put u.channel_id mark_done m) m
          (put-IsPast t u.channel_id mark_done m done-ref h) h)
]

shut_all-IsPast :
    (t : Task) (ss : List (String × Session)) (m : Manager) → IsPast t m → IsPast t (shut_all ss m)
unfolding shut_all shut_one
shut_all-IsPast t [] m h = h
shut_all-IsPast t ((c, s) ∷ ss) m h =
    if_of_both (IsPast t) (ends s) (shut_all ss (shut_one s m))
      (record m { blocked = s.ref ∷ m.blocked })
      (shut_all-IsPast t ss (shut_one s m) (
        if_of_both (IsPast t) (not s.recorded && not (has_recording_consumer s))
          (record m { removed = s.temp_dir ∷ m.removed }) m
          (record { younger = h.younger; made = h.made }) h))
      (record { younger = h.younger; made = h.made })

call-IsPast : (t : Task) (c : Call) (m : Manager) → IsPast t m → IsPast t (take_call c m)
unfolding shutdown
call-IsPast t (join made opts id fresh kind now) m h = join-IsPast t made opts id fresh kind now m h
call-IsPast t (begin_recording fresh now channel) m h = recording-IsPast t fresh now channel m h
call-IsPast t (leave_channel channel id) m h = leave-IsPast t channel id m h
call-IsPast t (look_for_recording u) m h =
    let same = test_left-same u m in IsPast-of_same t m _ same.0 same.1 h
call-IsPast t (clean_up u) m h = cleanup-IsPast t u m h
call-IsPast t (begin_cleanup u) m h = detach-IsPast t u m h
call-IsPast t (end_cleanup channel s) m h =
    let same = finish-keeps channel s m in IsPast-of_same t m _ same.0 same.1 h
call-IsPast t (pipeline_ended u) m h = ended-IsPast t u m h
call-IsPast t shut_down m h =
    shut_all-IsPast t m.sessions (record m { sessions = [] })
      (record { younger = tt; made = h.made })

-- However the manager is called, a session that is gone does not come back.
pub calls-IsPast :
    (t : Task) (cs : List Call) (m : Manager) → IsPast t m → IsPast t (take_calls cs m)
calls-IsPast t [] m h = h
calls-IsPast t (c ∷ cs) m h = calls-IsPast t cs (take_call c m) (call-IsPast t c m h)
