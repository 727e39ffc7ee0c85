-- ===== src/Scheduler/Conflicts.antt =====
-- pkg/service/scheduler.go: `Schedule` and `Delete` keep the plan free of overlaps.
use tvproxy.Base.{
  suc, String, ◌≡◌, refl, sym, inl, inr, Bool, false, List, [], ◌∷◌, ◌++◌, some, Result, ok, err,
  arith, find, Fresh, Distinct-append, some_inj, ◌∙◌, ◌+◌, ltb, find-append_new, find-Fresh, not,
  ◌&&◌, ◌==◌, Result-cases, Bool-cases,
}
use mathlib.Core.Path.{subst}
use tvproxy.Store.Table.{Error}
use tvproxy.Store.Channels
use tvproxy.Store.Recordings.{Recording, Recordings, id_of, is_excluded, with_status, stamped}
use tvproxy.Store.Recordings
use tvproxy.Store.Recordings.Laws.{Disjoint-append_new}
use tvproxy.Scheduler.{
  Recorder, Environment, World, remove_row, schedule_unless, schedule, delete, unlink,
  stop_if_recording, refused, tick_clock, lead_time, start_cutoff, lead_time, start_cutoff,
}
use tvproxy.Scheduler.Steps.{
  rows, IsPlanned, IsLive, create-rows, start_recording-IsPlanned, remove_row-IsPlanned,
}

module _ {V : Type 0} (recorder : Recorder V) (env : Environment) where
  pub unlink-rows : (path : String) (w : World V) → rows (unlink recorder env path w) ≡ rows w
  unlink-rows path w = ground arith

  pub stop_if_recording-rows :
      (rec : Recording) (w : World V) → rows (stop_if_recording recorder env rec w) ≡ rows w
  stop_if_recording-rows rec w = ground arith

  pub refused-rows :
      (r : World V × Result Error (Unit {0})) → rows (refused recorder env r).0 ≡ rows r.0
  refused-rows (w, ok _) = refl
  refused-rows (w, err e) = refl

  -- `Delete` keeps the plan free of overlaps, whatever it answers.
  pub delete-IsPlanned :
      (id user : String) (is_admin : Bool) (w : World V)
      → IsPlanned (rows w)
      → IsPlanned (rows (delete recorder env id user is_admin w).0)
  unfolding delete
  delete-IsPlanned id user is_admin w p =
      elim (Result-cases (Recordings.get_by_id id w.recordings)) [
        | inr (_, e) ↦ rw (e, delete) p
        | inl (rec, e) ↦ elim (Bool-cases (not is_admin && not (rec.user_id == user))) [
          | inl denied ↦ rw (e, delete, denied) p
          | inr allowed ↦
              rw (e, delete, allowed, refused-rows (remove_row recorder env id _))
                (remove_row-IsPlanned recorder env id _
                  (rw (unlink-rows rec.file_path _, stop_if_recording-rows rec w) p))
        ]
      ]

  -- The row that `Create` appends.
  abbrev pub new_row : Recording → World V → Recording
  new_row rec w = stamped (env.fresh w.events) (env.clock w.events) rec

  abbrev created : Recording → World V → World V
  created rec w = record w {
    recordings =
        (Recordings.create (env.writes w.events) (env.fresh w.events) (env.clock w.events) rec
          w.recordings).0;
    events = suc w.events;
  }

  created-IsPlanned :
      (rec : Recording) (w : World V)
      → Recordings.list_by_channel_and_time_range rec.channel_id rec.user_id rec.start_at
          rec.stop_at w.recordings
        ≡ []
      → Fresh id_of (new_row rec w).id (rows w)
      → IsPlanned (rows w)
      → IsPlanned (rows (created rec w))
  unfolding stamped
  created-IsPlanned rec w free fresh p =
      rw
        (create-rows (env.writes w.events) (env.fresh w.events) (env.clock w.events) rec
          w.recordings)
        (record {
          distinct = Distinct-append id_of (rows w) (new_row rec w) p.distinct fresh;
          disjoint = Disjoint-append_new (new_row rec w) w.recordings p.disjoint free;
        })

  created-IsLive :
      (rec : Recording) (w : World V)
      → rec.status ≡ ""
      → Fresh id_of (new_row rec w).id (rows w)
      → IsLive (new_row rec w).id (rows (created rec w))
  unfolding stamped is_excluded
  created-IsLive rec w blank fresh r e =
      let found =
        find-append_new id_of (new_row rec w).id (rows w) (new_row rec w) refl
          (find-Fresh id_of (new_row rec w).id (rows w) fresh) in
      let rows_e =
        create-rows (env.writes w.events) (env.fresh w.events) (env.clock w.events) rec
          w.recordings in
      let e' : find id_of (new_row rec w).id (rows w ++ new_row rec w ∷ []) ≡ some r =
        rw rows_e at e in
      let same : new_row rec w ≡ r = some_inj (sym found ∙ e') in
      let pending : is_excluded (new_row rec w).status ≡ false = rw blank in
      subst (λ x. is_excluded x.status ≡ false) same pending

  schedule_unless-IsPlanned :
      (found : List Recording) (rec : Recording) (w : World V)
      → rec.status ≡ ""
      → Recordings.list_by_channel_and_time_range rec.channel_id rec.user_id rec.start_at
          rec.stop_at w.recordings
        ≡ found
      → Fresh id_of (new_row rec w).id (rows w)
      → IsPlanned (rows w)
      → IsPlanned (rows (schedule_unless recorder env found rec w).0)
  unfolding schedule_unless stamped
  schedule_unless-IsPlanned (_ ∷ _) rec w blank clashing fresh p = p
  schedule_unless-IsPlanned [] rec w blank free fresh p =
      let q = created-IsPlanned rec w free fresh p in
      let live = created-IsLive rec w blank fresh in
      let later =
        start_recording-IsPlanned recorder env (new_row rec w)
          (tick_clock recorder env (created rec w)) live q in
      elim (Result-cases
        (Recordings.create (env.writes w.events) (env.fresh w.events) (env.clock w.events) rec
          w.recordings).1) [
            | inr (_, e) ↦ rw (e, schedule_unless) q
            | inl (_, e) ↦
                elim (Bool-cases (ltb rec.start_at (env.clock (suc w.events) + lead_time w))) [
                  | inl soon ↦ rw (e, schedule_unless, soon) later
                  | inr later_on ↦ rw (e, schedule_unless, later_on) q
                ]
          ]

  -- A call of `Schedule` for a recording with no status, whose new identifier is not in use, keeps
  -- the identifiers distinct and the plan free of overlaps, whatever it answers.
  pub schedule-IsPlanned :
      (rec : Recording) (w : World V)
      → rec.status ≡ ""
      → Fresh id_of (new_row rec (tick_clock recorder env w)).id (rows w)
      → IsPlanned (rows w)
      → IsPlanned (rows (schedule recorder env rec w).0)
  unfolding schedule
  schedule-IsPlanned rec w blank fresh p =
      let q = schedule_unless-IsPlanned _ rec (tick_clock recorder env w) blank refl fresh p in
      elim (Result-cases (Channels.get_by_id rec.channel_id w.channels)) [
        | inr (_, e) ↦ rw (e, schedule) p
        | inl (channel, e) ↦ elim (Bool-cases channel.is_enabled) [
          | inr off ↦ rw (e, schedule, off) p
          | inl on ↦ elim (Bool-cases (ltb (rec.start_at + start_cutoff w) (env.clock w.events))) [
            | inl past ↦ rw (e, schedule, on, past) p
            | inr present ↦ elim (Bool-cases (ltb rec.start_at rec.stop_at)) [
              | inr backward ↦ rw (e, schedule, on, present, backward) p
              | inl forward ↦ rw (e, schedule, on, present, forward) q
            ]
          ]
        ]
      ]
