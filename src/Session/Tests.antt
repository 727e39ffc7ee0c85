-- ===== src/Session/Tests.antt =====
-- pkg/session: runs, and the theorems at inputs that meet their hypotheses.
use tvproxy.Base.{◌<◌, String, ◌≡◌, refl, true, false, List, [], ◌∷◌, none, some, arith}
use mathlib.Core.List.{Mem}
use tvproxy.Session.{
  Session, viewer, add_consumer, remove_consumer, has_recording_consumer, record_it, mark_done,
}
use tvproxy.Session.Manager.{
  StartOpts, Task, Manager, consumer, create, get_or_create, stop_and_cleanup, finish,
  cleanup_done_session, shutdown, shut_all, shut_one, pipeline_ends, add_recording_consumer, leave,
  test_left, detach,
}
use tvproxy.Session.Manager
use tvproxy.Session.Validity.{IsValid}
use tvproxy.Session.Sharing.{get_or_create-get}
use tvproxy.Session.Calls.{Call, join, leave_channel, clean_up}
use tvproxy.Session.Leaving.{cleanup_of, leave-record_kept}
use tvproxy.Session.Cleanup.{late_join_lost}

abbrev opts : StartOpts
opts = record {
  channel_id = "c1";
  stream_id = "s1";
  temp_dir = "/tmp/s1";
  metadata_only = false;
  seek_offset = 0;
}

abbrev none_yet : Manager
none_yet = record {
  sessions = [];
  cleanups = [];
  next_ref = 0;
  removed = [];
  cleaned = [];
  blocked = [];
}

abbrev watched : Session
watched = record {
  ref = 0;
  id = "x1";
  channel_id = "c1";
  stream_id = "s1";
  temp_dir = "/tmp/s1";
  recorded = false;
  was_recording = false;
  consumers = consumer "v1" viewer 5 ∷ [];
  running = true;
  done = false;
  error = none;
  stoppable = false;
  seekable = false;
  seek_offset = 0;
  seek_version = 0;
}

abbrev one : Manager
one = record {
  sessions = ("c1", watched) ∷ [];
  cleanups = [];
  next_ref = 1;
  removed = [];
  cleaned = [];
  blocked = [];
}

manager : Unit {0}
unfolding get_or_create create stop_and_cleanup finish cleanup_done_session shutdown shut_all
    shut_one pipeline_ends add_recording_consumer Manager.get Manager.remove leave test_left detach
    Manager.count add_consumer remove_consumer has_recording_consumer record_it mark_done
manager = tt

first_viewer : (get_or_create true opts "x1" "v1" viewer 5 none_yet).0 ≡ one
unfolding manager
first_viewer = refl

last_viewer_leaves :
    (stop_and_cleanup (cleanup_of "c1" watched) (Manager.remove "c1" "v1" one)).removed
    ≡ "/tmp/s1" ∷ []
unfolding manager
last_viewer_leaves = refl

recorded_stays : (shutdown (add_recording_consumer "r1" 6 "c1" one).0).removed ≡ []
unfolding manager
recorded_stays = refl

one-IsValid : IsValid one
one-IsValid = record { distinct = (tt, tt); keyed = (refl, tt); known = (omega arith, tt) }

get_or_create-get_example :
    (Manager.get "c1" (get_or_create true opts "x2" "v2" viewer 7 one).0
      ≡ some (add_consumer (consumer "v2" viewer 7) watched))
    × (◌≡◌ {A = String} "v2" "v2")
    × Mem (consumer "v2" viewer 7) (add_consumer (consumer "v2" viewer 7) watched).consumers
unfolding manager
get_or_create-get_example =
    get_or_create-get true opts "x2" "v2" viewer 7 one
      (add_consumer (consumer "v2" viewer 7) watched) "v2" one-IsValid refl

leave-record_kept_example :
    let taped = (add_recording_consumer "r1" 6 "c1" (leave "c1" "v1" one).0).0 in
    (test_left (cleanup_of "c1" watched) taped ≡ taped) × (taped.cleanups ≡ one.cleanups)
unfolding manager
leave-record_kept_example = leave-record_kept "c1" "v1" "r1" 6 one watched refl

-- The one session when its pipeline has ended.
abbrev over : Manager
over = record one { sessions = ("c1", record watched { done = true }) ∷ [] }

-- What comes before the turn of the old cleanup.
abbrev meanwhile : List Call
meanwhile =
    leave_channel "c1" "v2"
    ∷ clean_up (record { channel_id = "c1"; ref = 1 })
    ∷ join true opts "x3" "v3" viewer 9
    ∷ []

abbrev taped : Manager
taped = record one { sessions = ("c1", record watched { recorded = true }) ∷ [] }

late_join_lost_example :
    let left = Manager.remove "c1" "v1" one in
    let joined = (get_or_create true opts "x2" "v2" viewer 7 left).0 in
    (left.cleanups ≡ cleanup_of "c1" watched ∷ [])
    × (0 < Manager.count "c1" joined)
    × (Manager.get "c1" (stop_and_cleanup (cleanup_of "c1" watched) joined) ≡ none)
unfolding manager
late_join_lost_example =
    late_join_lost true opts "v1" "v2" "x2" viewer 7 one watched one-IsValid refl refl refl
