-- ===== src/Scheduler/Access.antt =====
-- pkg/service/scheduler.go: who may see and delete a recording, and what a refused call leaves.
use tvproxy.Base.{
  suc, ◌+◌, String, ◌≡◌, ◌≢◌, refl, sym, ◌∙◌, ◌⊎◌, ◌↔◌, inl, inr, Bool, true, false, not, ◌==◌,
  eq_iff, List, [], ◌∷◌, some, ok, err, arith, ltb, find, Option-cases, Bool-cases, Result-cases,
  find-remove_ne, some_inj, ap, err_inj, ok-ne-err,
}
use tvproxy.Store.Table.{Error}
use tvproxy.Store.Channels
use tvproxy.Store.Recordings.{Recording, Recordings, id_of}
use tvproxy.Store.Recordings
use tvproxy.Scheduler.{
  Recorder, Environment, World, Refusal, store_failed, get, delete, schedule, schedule_unless,
  remove_row, tick_clock, lead_time, start_cutoff,
}
use tvproxy.Scheduler.Steps.{rows, delete-rows}
use tvproxy.Scheduler.Conflicts.{unlink-rows, stop_if_recording-rows, refused-rows}

module _ {V : Type 0} (recorder : Recorder V) (env : Environment) where
  -- `Get` returns a recording exactly when it is the stored one under that identifier, and the
  -- caller is an administrator or its owner.
  pub get_iff :
      (id user : String) (is_admin : Bool) (w : World V) (r : Recording)
      → (get recorder env id user is_admin w ≡ ok r)
        ↔ ((find id_of id (rows w) ≡ some r) × ((is_admin ≡ true) ⊎ (r.user_id ≡ user)))
  unfolding get Recordings.get_by_id
  get_iff id user is_admin w r = elim (Option-cases (find id_of id (rows w))) [
    | inl e ↦ ((λ h. absurd (ground (arith, e, h))), (λ h. absurd (ground (arith, e, h))))
    | inr (s, e) ↦ (
      (λ h. ground (arith, e, h, eq_iff s.user_id user)),
      (λ h. ground (arith, e, h, eq_iff s.user_id user)),
    )
  ]

  foreign_row :
      (id k user : String) (w : World V) (rec r : Recording)
      → find id_of id (rows w) ≡ some rec
      → find id_of k (rows w) ≡ some r
      → (not (rec.user_id == user)) ≡ false
      → r.user_id ≢ user
      → k ≢ id
  foreign_row id k user w rec r e f own n same =
      let one : r ≡ rec = some_inj (sym f ∙ ap (λ i. find id_of i (rows w)) same ∙ e) in
      n (ap (λ (x : Recording). x.user_id) one ∙ ground (arith, own, eq_iff rec.user_id user))

  -- A `Delete` by a user who is no administrator leaves every recording of the others in the store
  -- as it is, whatever the identifier that it is called with.
  pub delete-others :
      (id k user : String) (w : World V) (r : Recording)
      → find id_of k (rows w) ≡ some r
      → r.user_id ≢ user
      → find id_of k (rows (delete recorder env id user false w).0) ≡ some r
  unfolding delete Recordings.get_by_id remove_row
  delete-others id k user w r f n = elim (Option-cases (find id_of id (rows w))) [
    | inl e ↦ rw (delete, e) f
    | inr (rec, e) ↦ elim (Bool-cases (not (rec.user_id == user))) [
      | inl denied ↦ rw (delete, e, denied) f
      | inr own ↦
          let ne = foreign_row id k user w rec r e f own n in
          rw (delete, e, own, refused-rows recorder env (remove_row recorder env id _))
            (rw (delete-rows _ id _) (
              rw
                (
                  unlink-rows recorder env rec.file_path _,
                  stop_if_recording-rows recorder env rec w,
                )
                (find-remove_ne id_of k id (rows w) ne ∙ f)))
    ]
  ]

  schedule_unless-refused :
      (found : List Recording) (rec : Recording) (w : World V) (e : Refusal)
      → (schedule_unless recorder env found rec w).1 ≡ err e
      → ((x : Error) → e ≢ store_failed x)
      → ((schedule_unless recorder env found rec w).0.recordings ≡ w.recordings)
        × ((schedule_unless recorder env found rec w).0.recorder ≡ w.recorder)
  unfolding schedule_unless Recordings.stamped
  schedule_unless-refused (_ ∷ _) rec w e h n = (refl, refl)
  schedule_unless-refused [] rec w e h n =
      elim (Result-cases
        (Recordings.create (env.writes w.events) (env.fresh w.events) (env.clock w.events) rec
          w.recordings).1) [
            | inr (x, r) ↦ absurd (n x (err_inj (sym (rw (r, schedule_unless) at h))))
            | inl (_, r) ↦
                elim (Bool-cases (ltb rec.start_at (env.clock (suc w.events) + lead_time w))) [
                  | inl soon ↦ absurd (ok-ne-err (rw (r, schedule_unless, soon) at h))
                  | inr later_on ↦ absurd (ok-ne-err (rw (r, schedule_unless, later_on) at h))
                ]
          ]

  -- A `Schedule` that is refused before the store is written leaves the rows, the file and the
  -- recorder as they were.
  pub schedule-refused :
      (rec : Recording) (w : World V) (e : Refusal)
      → (schedule recorder env rec w).1 ≡ err e
      → ((x : Error) → e ≢ store_failed x)
      → ((schedule recorder env rec w).0.recordings ≡ w.recordings)
        × ((schedule recorder env rec w).0.recorder ≡ w.recorder)
  unfolding schedule
  schedule-refused rec w e h n =
      elim (Result-cases (Channels.get_by_id rec.channel_id w.channels)) [
        | inr (_, r) ↦ rw (r, schedule) (refl, refl)
        | inl (channel, r) ↦ elim (Bool-cases channel.is_enabled) [
          | inr off ↦ rw (r, schedule, off) (refl, refl)
          | inl on ↦ elim (Bool-cases (ltb (rec.start_at + start_cutoff w) (env.clock w.events))) [
            | inl past ↦ rw (r, schedule, on, past) (refl, refl)
            | inr present ↦ elim (Bool-cases (ltb rec.start_at rec.stop_at)) [
              | inr backward ↦ rw (r, schedule, on, present, backward) (refl, refl)
              | inl forward ↦
                  rw (r, schedule, on, present, forward)
                    (schedule_unless-refused _ rec (tick_clock recorder env w) e
                      (rw (r, schedule, on, present, forward) at h) n)
            ]
          ]
        ]
      ]
