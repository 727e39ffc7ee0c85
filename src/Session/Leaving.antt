-- ===== src/Session/Leaving.antt =====
-- pkg/session/manager.go: what happens when a consumer leaves, and when a recording begins meanwhile.
use tvproxy.Base.{
  ℕ, String, ◌≡◌, refl, ◌∙◌, inl, inr, true, false, List, [], ◌∷◌, none, some, arith, length,
  nat_eq, if◌then◌else◌, if_true, if_false, Bool-cases, ap, Option,
}
use tvproxy.Session.{
  Session, without, add_consumer, remove_consumer, has_recording_consumer, recording, record_it,
}
use tvproxy.Session.Manager.{
  StartOpts, Task, Manager, key_of, on_session, put, consumer, get_or_create, stop_and_cleanup,
  finish, ends, shut_one, shut_all, shutdown, leave, test_left, start_cleanup, detach,
  finish_detached, add_recording_consumer,
}
use tvproxy.Session.Manager
use tvproxy.Session.Sharing.{put-get}

abbrev pub cleanup_of : String → Session → Task
cleanup_of channel s = record { channel_id = channel; ref = s.ref }

no_recording :
    (id : String) (s : Session)
    → without id s.consumers ≡ []
    → has_recording_consumer (remove_consumer id s).0 ≡ false
unfolding has_recording_consumer remove_consumer
no_recording id s e = rw e

length_zero {ℓ} : {A : Type ℓ} (xs : List A) → nat_eq (length xs) 0 ≡ true → xs ≡ []
length_zero [] h = refl
length_zero (x ∷ xs) h = absurd (ground arith)

pub leave_lem :
    (channel id : String) (m : Manager) (s : Session)
    → Manager.get channel m ≡ some s
    → leave channel id m ≡ (
      put channel (λ x. (remove_consumer id x).0) m,
      if nat_eq (length (without id s.consumers)) 0 then some (cleanup_of channel s) else none,
    )
unfolding leave remove_consumer
leave_lem channel id m s e = rw (e, leave) refl

-- The session of the channel after a consumer has left.
pub leave-get :
    (channel id : String) (m : Manager) (s : Session)
    → Manager.get channel m ≡ some s
    → Manager.get channel (leave channel id m).0 ≡ some (remove_consumer id s).0
leave-get channel id m s e =
    rw (leave_lem channel id m s e) (put-get channel (λ x. (remove_consumer id x).0) m s e)

pub removed-ref : (id : String) (s : Session) → (remove_consumer id s).0.ref ≡ s.ref
unfolding remove_consumer
removed-ref id s = refl

-- A test that finds the session of its task.
test_left_own :
    (t : Task) (m : Manager) (s : Session)
    → Manager.get t.channel_id m ≡ some s
    → s.ref ≡ t.ref
    → test_left t m ≡ (if has_recording_consumer s then m else start_cleanup t m)
unfolding test_left
test_left_own t m s e own = rw (e, test_left) (if_true (nat_eq s.ref t.ref) _ _ (ground arith))

-- `RemoveConsumer`, when nothing comes between its parts, starts a cleanup exactly when no consumer
-- is left.
pub remove_last :
    (channel id : String) (m : Manager) (s : Session)
    → Manager.get channel m ≡ some s
    → (Manager.remove channel id m).cleanups ≡ (
        if nat_eq (length (without id s.consumers)) 0
        then cleanup_of channel s ∷ m.cleanups
        else m.cleanups)
unfolding Manager.remove
remove_last channel id m s e = elim (Bool-cases (nat_eq (length (without id s.consumers)) 0)) [
  | inl none_left ↦
      let empty = length_zero (without id s.consumers) none_left in
      let there = leave-get channel id m s e in
      let tested =
        test_left_own (cleanup_of channel s) (leave channel id m).0 (remove_consumer id s).0 there
          (removed-ref id s) in
      let quiet = no_recording id s empty in
      let left =
        ap (λ (r : Manager × Option Task). r.1) (leave_lem channel id m s e)
        ∙ if_true (nat_eq (length (without id s.consumers)) 0) (some (cleanup_of channel s)) none
            none_left in
      rw (left, Manager.remove, tested, quiet, none_left)
        (ap (λ (r : Manager × Option Task). cleanup_of channel s ∷ (r.0).cleanups)
          (leave_lem channel id m s e))
  | inr some_left ↦
      let left =
        ap (λ (r : Manager × Option Task). r.1) (leave_lem channel id m s e)
        ∙ if_false (nat_eq (length (without id s.consumers)) 0) (some (cleanup_of channel s)) none
            some_left in
      rw (left, Manager.remove, some_left)
        (ap (λ (r : Manager × Option Task). (r.0).cleanups) (leave_lem channel id m s e))
]

recorded_has :
    (fresh : String) (now : ℕ) (s : Session)
    → has_recording_consumer (record_it (add_consumer (consumer fresh recording now) s)) ≡ true
unfolding has_recording_consumer record_it add_consumer
recorded_has fresh now s = refl

recorded-ref :
    (fresh : String) (now : ℕ) (s : Session)
    → (record_it (add_consumer (consumer fresh recording now) s)).ref ≡ s.ref
unfolding record_it add_consumer
recorded-ref fresh now s = refl

add_recording_lem :
    (fresh : String) (now : ℕ) (channel : String) (m : Manager) (s : Session)
    → Manager.get channel m ≡ some s
    → (add_recording_consumer fresh now channel m).0
      ≡ put channel (λ s. record_it (add_consumer (consumer fresh recording now) s)) m
unfolding add_recording_consumer
add_recording_lem fresh now channel m s e = rw (e, add_recording_consumer) refl

-- A recording that begins between the two parts of `RemoveConsumer`, after the consumer has left and
-- before the test for recordings, keeps the session: no cleanup is started, even if nobody was left.
pub leave-record_kept :
    (channel id fresh : String) (now : ℕ) (m : Manager) (s : Session)
    → Manager.get channel m ≡ some s
    → let taped = (add_recording_consumer fresh now channel (leave channel id m).0).0 in
      (test_left (cleanup_of channel s) taped ≡ taped) × (taped.cleanups ≡ m.cleanups)
leave-record_kept channel id fresh now m s e =
    let left = (leave channel id m).0 in
    let f : Session → Session = λ s. record_it (add_consumer (consumer fresh recording now) s) in
    let s' = (remove_consumer id s).0 in
    let there = leave-get channel id m s e in
    let taped = add_recording_lem fresh now channel left s' there in
    let now_there = put-get channel f left s' there in
    let tested =
      test_left_own (cleanup_of channel s) (put channel f left) (f s') now_there
        (recorded-ref fresh now s' ∙ removed-ref id s) in
    rw taped (
      tested
          ∙ if_true (has_recording_consumer (f s')) (put channel f left)
              (start_cleanup (cleanup_of channel s) (put channel f left))
              (recorded_has fresh now s'),
      ap (λ (r : Manager × Option Task). (r.0).cleanups) (leave_lem channel id m s e),
    )
