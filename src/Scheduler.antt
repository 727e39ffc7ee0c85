-- ===== src/Scheduler.antt =====
-- pkg/service/scheduler.go: scheduled recordings. The service reads the clock, writes the store's
-- file and makes identifiers; what it gets is numbered by `events`, so each reading of the clock
-- and each write is another one. Times and durations are nanoseconds.
pub mod Steps
pub mod Conflicts
pub mod Ticks
pub mod Access
mod Tests
use tvproxy.Base.{
  ℕ, suc, ◌+◌, ◌*◌, String, Bool, not, ◌&&◌, ◌==◌, List, [], ◌∷◌, ◌++◌, Option, none, some, Result,
  ok, err, ltb, if◌then◌else◌,
}
use tvproxy.Store.Table.{Write, Error, Table}
use tvproxy.Store.Channels.{Channels}
use tvproxy.Store.Channels
use tvproxy.Store.Recordings.{Recording, Recordings}
use tvproxy.Store.Recordings

pub data Failure : Type 0 where
  already_recording : Failure
  other : String → Failure

pub record Request : Type 0 where
  pub channel_id : String
  pub title : String
  pub channel_name : String
  pub user_id : String
  pub stop_at : ℕ

-- What the scheduler calls of VODService: `StartRecording`, `StopRecording` (its error is ignored)
-- and whether `GetSession` returns a session.
pub record Recorder (V : Type 0) : Type 0 where
  pub start : Request → V → V × Result Failure (Unit {0})
  pub stop : String → V → V
  pub has_session : String → V → Bool

pub record Environment : Type 0 where
  pub clock : ℕ → ℕ
  pub writes : ℕ → Write Recording
  pub fresh : ℕ → String

pub record Settings : Type 0 where
  pub start_cutoff : ℕ
  pub lead_time : ℕ

pub record World (V : Type 0) : Type 0 where
  pub recordings : Recordings
  pub channels : Channels
  pub recorder : V
  pub settings : Option Settings
  pub unlinked : List String
  pub events : ℕ

pub data Refusal : Type 0 where
  channel_not_found channel_disabled starts_in_past stops_before_start : Refusal
  schedule_conflict recording_not_found not_authorized : Refusal
  store_failed : Error → Refusal

abbrev pub second : ℕ
second = 1_000_000_000

abbrev pub start_cutoff : {V : Type 0} → World V → ℕ
start_cutoff w = elim w.settings [ none ↦ 300 * second | some s ↦ s.start_cutoff ]

abbrev pub lead_time : {V : Type 0} → World V → ℕ
lead_time w = elim w.settings [ none ↦ 30 * second | some s ↦ s.lead_time ]

module _ {V : Type 0} (recorder : Recorder V) (env : Environment) where
  -- time.Now()
  abbrev pub now : World V → ℕ
  now w = env.clock w.events

  abbrev pub tick_clock : World V → World V
  tick_clock w = record w { events = suc w.events }

  -- `UpdateStatus`, with its own reading of the clock and its own write.
  unfoldable pub set_status : String → String → String → World V → World V × Result Error (Unit {0})
  set_status id status last_error w =
      let (t, r) =
        Recordings.update_status (env.writes w.events) (now w) id status last_error w.recordings in
      (record w { recordings = t; events = suc w.events }, r)

  unfoldable pub set_session : String → String → World V → World V
  set_session id session w =
      let (t, _) =
        Recordings.update_recording_state (env.writes w.events) (now w) id session ""
          w.recordings in
      record w { recordings = t; events = suc w.events }

  unfoldable pub remove_row : String → World V → World V × Result Error (Unit {0})
  remove_row id w =
      let (t, r) = Recordings.delete (env.writes w.events) id w.recordings in
      (record w { recordings = t; events = suc w.events }, r)

  abbrev pub request_of : Recording → Request
  request_of rec = record {
    channel_id = rec.channel_id;
    title = rec.program_title;
    channel_name = rec.channel_name;
    user_id = rec.user_id;
    stop_at = rec.stop_at;
  }

  -- The end of `startRecording`, by what `StartRecording` returned.
  unfoldable pub started : Recording → Result Failure (Unit {0}) → World V → World V
  started rec (ok _) w = set_session rec.id rec.channel_id w
  started rec (err already_recording) w = set_session rec.id rec.channel_id w
  started rec (err (other message)) w = (set_status rec.id "failed" message w).0

  unfoldable pub start_recording : Recording → World V → World V
  start_recording rec w =
      let (w', r) = set_status rec.id "recording" "" w in
      elim r [
        | err _ ↦ w'
        | ok _ ↦
            let (v, s) = recorder.start (request_of rec) w'.recorder in
            started rec s (record w' { recorder = v })
      ]

  -- The end of `Schedule`, with the duplicates found so far.
  unfoldable pub schedule_unless :
      List Recording → Recording → World V → World V × Result Refusal (Unit {0})
  schedule_unless (_ ∷ _) rec w = (w, err schedule_conflict)
  schedule_unless [] rec w =
      let row = Recordings.stamped (env.fresh w.events) (now w) rec in
      let (t, r) =
        Recordings.create (env.writes w.events) (env.fresh w.events) (now w) rec w.recordings in
      let w' : World V = record w { recordings = t; events = suc w.events } in
      elim r [
        | err e ↦ (w', err (store_failed e))
        | ok _ ↦
            if ltb row.start_at (now w' + lead_time w')
            then (start_recording row (tick_clock w'), ok tt)
            else (tick_clock w', ok tt)
      ]

  unfoldable pub schedule : Recording → World V → World V × Result Refusal (Unit {0})
  schedule rec w = elim (Channels.get_by_id rec.channel_id w.channels) [
    | err _ ↦ (w, err channel_not_found)
    | ok channel ↦
        if not channel.is_enabled
        then (w, err channel_disabled)
        else if ltb (rec.start_at + start_cutoff w) (now w)
        then (tick_clock w, err starts_in_past)
        else if not (ltb rec.start_at rec.stop_at)
        then (tick_clock w, err stops_before_start)
        else schedule_unless
            (Recordings.list_by_channel_and_time_range rec.channel_id rec.user_id rec.start_at
              rec.stop_at w.recordings)
            rec (tick_clock w)
  ]

  -- `Get`, and the check that `Delete` begins with.
  unfoldable pub get : String → String → Bool → World V → Result Refusal Recording
  get id user is_admin w = elim (Recordings.get_by_id id w.recordings) [
    | err _ ↦ err recording_not_found
    | ok rec ↦ if not is_admin && not (rec.user_id == user) then err not_authorized else ok rec
  ]

  -- os.Remove, when the path is not empty.
  abbrev pub unlink : String → World V → World V
  unlink path w = if path == "" then w else record w { unlinked = path ∷ w.unlinked }

  abbrev pub stop_if_recording : Recording → World V → World V
  stop_if_recording rec w =
      if rec.status == "recording"
      then record w { recorder = recorder.stop rec.channel_id w.recorder }
      else w

  abbrev pub refused : World V × Result Error (Unit {0}) → World V × Result Refusal (Unit {0})
  refused (w, ok _) = (w, ok tt)
  refused (w, err e) = (w, err (store_failed e))

  unfoldable pub delete : String → String → Bool → World V → World V × Result Refusal (Unit {0})
  delete id user is_admin w = elim (Recordings.get_by_id id w.recordings) [
    | err _ ↦ (w, err recording_not_found)
    | ok rec ↦
        if not is_admin && not (rec.user_id == user)
        then (w, err not_authorized)
        else refused (remove_row id (unlink rec.file_path (stop_if_recording rec w)))
  ]

  unfoldable pub list : String → Bool → World V → List Recording
  list user is_admin w =
      if is_admin
      then Recordings.list w.recordings
      else Recordings.list_by_user_id user w.recordings

  -- The first loop of `startPendingRecordings`.
  unfoldable pub remove_missed : ℕ → List Recording → World V → World V
  remove_missed time [] w = w
  remove_missed time (rec ∷ recs) w =
      remove_missed time recs (if ltb rec.stop_at time then (remove_row rec.id w).0 else w)

  unfoldable pub start_all : List Recording → World V → World V
  start_all [] w = w
  start_all (rec ∷ recs) w = start_all recs (start_recording rec w)

  unfoldable pub start_pending : World V → World V
  start_pending w =
      let time = now w in
      let pending = Recordings.list_by_status "pending" w.recordings in
      let w' = remove_missed time pending (tick_clock w) in
      start_all (Recordings.list_pending time w'.recordings) w'

  -- One round of `monitorActiveRecordings`; the clock is read again when no session is left.
  unfoldable pub monitor_one : Recording → World V → World V
  monitor_one rec w =
      let w₁ = tick_clock w in
      if ltb rec.stop_at (now w)
      then (set_status rec.id "completed" ""
          (record w₁ { recorder = recorder.stop rec.channel_id w₁.recorder })).0
      else if recorder.has_session rec.channel_id w₁.recorder
      then w₁
      else let w₂ = tick_clock w₁ in
        if ltb rec.stop_at (now w₁)
        then (set_status rec.id "failed" "recording session lost" w₂).0
        else start_recording rec w₂

  unfoldable pub monitor_all : List Recording → World V → World V
  monitor_all [] w = w
  monitor_all (rec ∷ recs) w = monitor_all recs (monitor_one rec w)

  unfoldable pub monitor_active : World V → World V
  monitor_active w = monitor_all (Recordings.list_by_status "recording" w.recordings) w

  unfoldable pub tick : World V → World V
  tick w = monitor_active (start_pending w)
