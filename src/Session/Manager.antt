-- ===== src/Session/Manager.antt =====
-- pkg/session/manager.go: the sessions by channel. `stopAndCleanup` runs in a goroutine of its own:
-- it is a task in `cleanups`, with the channel and the session that it was started for, and takes
-- its turn at any later time. The probe cache and the log are left out.
use tvproxy.Base.{
  ℕ, suc, String, Bool, true, false, not, ◌&&◌, ◌||◌, nat_eq, List, [], ◌∷◌, Option, none, some,
  find, modify, remove as drop_row, if◌then◌else◌,
}
use tvproxy.Base.Maps.{put as assign}
use tvproxy.Session.{
  Session, Consumer, Kind, recording, consumer_count, add_consumer, remove_consumer,
  has_recording_consumer, record_it, mark_done,
}

-- `temp_dir` is the directory that the probe cache or the output directory gives for the stream.
pub record StartOpts : Type 0 where
  pub channel_id : String
  pub stream_id : String
  pub temp_dir : String
  pub metadata_only : Bool
  pub seek_offset : ℕ

pub record Task : Type 0 where
  pub channel_id : String
  pub ref : ℕ

-- `sessions` is the map, `removed` the directories that were deleted, `cleaned` the channels that
-- the callback `onCleanup` was called for, `blocked` the sessions that a caller waits for in vain.
pub record Manager : Type 0 where
  pub sessions : List (String × Session)
  pub cleanups : List Task
  pub next_ref : ℕ
  pub removed : List String
  pub cleaned : List String
  pub blocked : List ℕ

abbrev pub key_of : String × Session → String
key_of p = p.0

abbrev pub on_session : (Session → Session) → String × Session → String × Session
on_session f p = (p.0, f p.1)

-- `Get`.
unfoldable pub get : String → Manager → Option Session
get channel m = elim (find key_of channel m.sessions) [ none ↦ none | some p ↦ some p.1 ]

-- `ConsumerCount`.
unfoldable pub count : String → Manager → ℕ
count channel m = elim (get channel m) [ none ↦ 0 | some s ↦ consumer_count s ]

-- `IsDone`: a channel with no session is done.
unfoldable pub is_done : String → Manager → Bool
is_done channel m = elim (get channel m) [ none ↦ true | some s ↦ s.done ]

abbrev pub put : String → (Session → Session) → Manager → Manager
put channel f m = record m { sessions = modify key_of channel (on_session f) m.sessions }

abbrev pub consumer : String → Kind → ℕ → Consumer
consumer fresh kind now = record { id = fresh; kind = kind; created_at = now }

-- `AddRecordingConsumer`; the empty text if there is no session.
unfoldable pub add_recording_consumer : String → ℕ → String → Manager → Manager × String
add_recording_consumer fresh now channel m = elim (get channel m) [
  | none ↦ (m, "")
  | some _ ↦ (put channel (λ s. record_it (add_consumer (consumer fresh recording now) s)) m, fresh)
]

-- The first part of `RemoveConsumer`: the look-up and the removal, with the session that has no
-- consumer left. Each takes a lock of its own; a session that is dropped from the map in between is
-- seen by nobody else, and its removal is left out.
unfoldable pub leave : String → String → Manager → Manager × Option Task
leave channel id m = elim (get channel m) [
  | none ↦ (m, none)
  | some s ↦ (
    put channel (λ x. (remove_consumer id x).0) m,
    if nat_eq (remove_consumer id s).1 0
        then some (record { channel_id = channel; ref = s.ref })
        else none,
  )
]

abbrev pub start_cleanup : Task → Manager → Manager
start_cleanup t m = record m { cleanups = t ∷ m.cleanups }

-- The second part, which other calls may come before: whether the session has a recording consumer
-- by then. A cleanup of a session that is no longer in the map would do nothing, and is left out.
unfoldable pub test_left : Task → Manager → Manager
test_left t m = elim (get t.channel_id m) [
  | none ↦ m
  | some s ↦
      if nat_eq s.ref t.ref then (if has_recording_consumer s then m else start_cleanup t m) else m
]

-- `RemoveConsumer` when nothing comes between its parts.
unfoldable pub remove : String → String → Manager → Manager
remove channel id m =
    let r = leave channel id m in elim r.1 [ none ↦ r.0 | some t ↦ test_left t r.0 ]

-- `s.cancel(); <-s.done`: a pipeline that runs is waited for, and one that was never started never
-- ends.
abbrev pub ends : Session → Bool
ends s = s.running || s.done

-- The part of `stopAndCleanup` behind the removal from the map. It holds no lock of the manager, and
-- changes nothing that the calls of the manager look at, so that they may come before it.
unfoldable pub finish : String → Session → Manager → Manager
finish channel s m = if not (ends s) then record m { blocked = s.ref ∷ m.blocked } else record m {
  cleaned = channel ∷ m.cleaned;
  removed = if not s.recorded && not s.was_recording then s.temp_dir ∷ m.removed else m.removed;
}

-- The part under the lock: the session leaves the map, if the channel still has the one that the
-- task was started for.
unfoldable pub detach : Task → Manager → Manager × Option Session
detach t m = elim (get t.channel_id m) [
  | none ↦ (m, none)
  | some s ↦
      if nat_eq s.ref t.ref
      then (record m { sessions = drop_row key_of t.channel_id m.sessions }, some s)
      else (m, none)
]

abbrev pub finish_detached : String → Manager × Option Session → Manager
finish_detached channel (m, none) = m
finish_detached channel (m, some s) = finish channel s m

-- `stopAndCleanup` when nothing comes between its parts.
unfoldable pub stop_and_cleanup : Task → Manager → Manager
stop_and_cleanup t m = finish_detached t.channel_id (detach t m)

-- `cleanupDoneSession`: the session is done, so the wait ends at once. `onCleanup` is not called.
unfoldable pub cleanup_done_session : String → Session → Manager → Manager
cleanup_done_session channel s m = record m {
  sessions = drop_row key_of channel m.sessions;
  removed = if s.recorded then m.removed else s.temp_dir ∷ m.removed;
}

abbrev pub new_session : StartOpts → String → ℕ → Session
new_session opts id ref = record {
  ref = ref;
  id = id;
  channel_id = opts.channel_id;
  stream_id = opts.stream_id;
  temp_dir = opts.temp_dir;
  recorded = false;
  was_recording = false;
  consumers = [];
  running = not opts.metadata_only;
  done = false;
  error = none;
  stoppable = false;
  seekable = false;
  seek_offset = opts.seek_offset;
  seek_version = 0;
}

-- The end of `GetOrCreateWithConsumer`: a new session. `made` is whether os.MkdirAll succeeded.
unfoldable pub create :
    Bool → StartOpts → String → Consumer → Manager → Manager × Option (Session × String)
create made opts id c m =
    if not made
    then (m, none)
    else let s = add_consumer c (new_session opts id m.next_ref) in
      (
        record m { sessions = assign opts.channel_id s m.sessions; next_ref = suc m.next_ref },
        some (s, c.id),
      )

-- `GetOrCreateWithConsumer`; `none` is the error that the directory could not be made.
unfoldable pub get_or_create :
    Bool → StartOpts → String → String → Kind → ℕ → Manager → Manager × Option (Session × String)
get_or_create made opts id fresh kind now m = elim (get opts.channel_id m) [
  | none ↦ create made opts id (consumer fresh kind now) m
  | some s ↦
      if s.done
      then create made opts id (consumer fresh kind now) (cleanup_done_session opts.channel_id s m)
      else (
        put opts.channel_id (add_consumer (consumer fresh kind now)) m,
        some (add_consumer (consumer fresh kind now) s, fresh),
      )
]

-- The end of `runPipeline`: the session is marked done, if the map still has it.
unfoldable pub pipeline_ends : Task → Manager → Manager
pipeline_ends t m = elim (get t.channel_id m) [
  | none ↦ m
  | some s ↦ if nat_eq s.ref t.ref then put t.channel_id mark_done m else m
]

-- One session in the loop of `Shutdown`.
unfoldable pub shut_one : Session → Manager → Manager
shut_one s m =
    if not s.recorded && not (has_recording_consumer s)
    then record m { removed = s.temp_dir ∷ m.removed }
    else m

-- The loop stops for good at a session whose pipeline was never started.
unfoldable pub shut_all : List (String × Session) → Manager → Manager
shut_all [] m = m
shut_all ((_, s) ∷ ss) m =
    if ends s then shut_all ss (shut_one s m) else record m { blocked = s.ref ∷ m.blocked }

unfoldable pub shutdown : Manager → Manager
shutdown m = shut_all m.sessions (record m { sessions = [] })
