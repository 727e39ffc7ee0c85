-- ===== src/Scheduler/Tests.antt =====
-- pkg/service/scheduler.go: runs on small inputs, and the theorems at inputs that meet their
-- hypotheses. The recorder here is a list of the channels that are recorded.
use tvproxy.Base.{
  ℕ, ◌+◌, String, ◌≡◌, ◌≢◌, refl, ◌⊎◌, ◌↔◌, Bool, true, false, ◌==◌, eq_iff, List, [], ◌∷◌, map,
  none, some, ok, err, arith, find, any, keep, not, if◌then◌else◌,
}
use tvproxy.Store.Table.{File, Write, Error}
use tvproxy.Store.Channels.{Channel, ChannelEntry}
use tvproxy.Store.Channels
use tvproxy.Store.Recordings.{Recording, id_of, is_excluded, clashes, stamped}
use tvproxy.Store.Recordings
use tvproxy.Scheduler.{
  Recorder, Environment, World, Refusal, already_recording, schedule_conflict, get, delete, list,
  schedule, schedule_unless, start_recording, started, set_status, set_session, remove_row, tick,
  start_pending, remove_missed, start_all, monitor_active, monitor_all, monitor_one,
}
use tvproxy.Scheduler.Steps.{rows, IsPlanned}
use tvproxy.Scheduler.Conflicts.{schedule-IsPlanned}
use tvproxy.Scheduler.Ticks.{tick-IsPlanned}
use tvproxy.Scheduler.Access.{get_iff, delete-others}

abbrev lamp : Recorder (List String)
lamp = record {
  start = λ r v.
      if any (λ c. c == r.channel_id) v
      then (v, err already_recording)
      else (r.channel_id ∷ v, ok tt);
  stop = λ c v. keep (λ d. not (d == c)) v;
  has_session = λ c v. any (λ d. d == c) v;
}

-- The clock stands at 1000 and moves by one at each reading; every write succeeds.
abbrev steady : Environment
steady = record { clock = λ n. 1000 + n; writes = λ n. Write.written; fresh = λ n. "new" }

abbrev news : ChannelEntry
news = record {
  channel = record {
    id = "c1";
    user_id = "ann";
    name = "News";
    logo_id = none;
    logo = "";
    tvg_id = "";
    channel_group_id = none;
    stream_profile_id = none;
    fail_count = 0;
    is_enabled = true;
    created_at = 0;
    updated_at = 0;
  };
  stream_ids = [];
}

abbrev show : String → String → ℕ → ℕ → String → Recording
show id user start stop status = record {
  id = id;
  user_id = user;
  channel_id = "c1";
  channel_name = "News";
  program_title = "Evening";
  start_at = start;
  stop_at = stop;
  status = status;
  session_id = "";
  segment_id = "";
  file_path = "";
  last_error = "";
  created_at = 0;
  updated_at = 0;
}

abbrev world : List Recording → World (List String)
world rs = record {
  recordings = record { rows = rs; file = File.absent };
  channels = record { rows = news ∷ []; file = File.absent };
  recorder = [];
  settings = none;
  unlinked = [];
  events = 0;
}

abbrev evening : World (List String)
evening = world (show "r1" "ann" 5000 6000 "pending" ∷ [])

service : Unit {0}
unfolding schedule schedule_unless start_recording started set_status set_session remove_row get
    delete list tick start_pending remove_missed start_all monitor_active monitor_all monitor_one
    Channels.get_by_id Recordings.get_by_id Recordings.create Recordings.stamped
    Recordings.update_status Recordings.update_recording_state Recordings.update_field
    Recordings.delete Recordings.list Recordings.list_by_user_id Recordings.list_pending
    Recordings.list_by_status Recordings.list_by_channel_and_time_range Recordings.clashes
    is_excluded
service = tt

overlap_is_refused :
    (schedule lamp steady (show "" "ann" 5999 7000 "") evening).1 ≡ err schedule_conflict
unfolding service
overlap_is_refused = refl

next_is_accepted : (schedule lamp steady (show "" "ann" 6000 7000 "") evening).1 ≡ ok tt
unfolding service
next_is_accepted = refl

-- A recording that is due starts in the round, and one that was missed is removed.
due_and_missed :
    map
      (λ r. r.status)
      (rows (
        tick lamp steady
          (world (show "r1" "ann" 900 2000 "pending" ∷ show "r2" "ann" 100 200 "pending" ∷ []))))
    ≡ "recording" ∷ []
unfolding service
due_and_missed = refl

evening-IsPlanned : IsPlanned (rows evening)
evening-IsPlanned = record { distinct = (tt, tt); disjoint = (tt, tt) }

new_ne_r1 : ◌≢◌ {A = String} "r1" "new"
new_ne_r1 = ground (arith, eq_iff "r1" "new")

schedule-IsPlanned_example :
    IsPlanned (rows (schedule lamp steady (show "" "ann" 6000 7000 "") evening).0)
unfolding stamped
schedule-IsPlanned_example =
    schedule-IsPlanned lamp steady (show "" "ann" 6000 7000 "") evening refl (new_ne_r1, tt)
      evening-IsPlanned

tick-IsPlanned_example : IsPlanned (rows (tick lamp steady evening))
tick-IsPlanned_example = tick-IsPlanned lamp steady evening evening-IsPlanned

get_iff_example :
    (get lamp steady "r1" "bob" false evening ≡ ok (show "r1" "ann" 5000 6000 "pending")) ↔ (
      (find id_of "r1" (rows evening) ≡ some (show "r1" "ann" 5000 6000 "pending"))
      × ((◌≡◌ {A = Bool} false true) ⊎ (◌≡◌ {A = String} "ann" "bob")))
get_iff_example = get_iff lamp steady "r1" "bob" false evening (show "r1" "ann" 5000 6000 "pending")

delete-others_example :
    find id_of "r1" (rows (delete lamp steady "r1" "bob" false evening).0)
    ≡ some (show "r1" "ann" 5000 6000 "pending")
delete-others_example =
    delete-others lamp steady "r1" "r1" "bob" evening (show "r1" "ann" 5000 6000 "pending") refl
      (ground (arith, eq_iff "ann" "bob"))

conflict_not_store : (x : Error) → schedule_conflict ≢ Refusal.store_failed x
conflict_not_store x = cc
