-- ===== src/Session.antt =====
-- pkg/session/session.go: one pipeline of a channel and those who consume it. Only what decides its
-- life is kept; `ref` stands for the address of the object, which the manager compares. The map of
-- consumers is an association list by their identifiers. Positions are microseconds.
pub mod Manager
pub mod Validity
pub mod Sharing
pub mod Running
pub mod Leaving
pub mod Cleanup
pub mod Past
pub mod Calls
pub mod Replacement
mod Tests
use tvproxy.Base.{
  ℕ, suc, ◌+◌, String, Bool, true, false, not, ◌&&◌, ◌||◌, ◌==◌, List, [], ◌∷◌, Option, none, some,
  length, keep, any, if◌then◌else◌,
}

pub data Kind : Type 0 where
  viewer recording : Kind

abbrev pub is_recording : Kind → Bool
is_recording viewer = false
is_recording recording = true

pub record Consumer : Type 0 where
  pub id : String
  pub kind : Kind
  pub created_at : ℕ

pub record Session : Type 0 where
  pub ref : ℕ
  pub id : String
  pub channel_id : String
  pub stream_id : String
  pub temp_dir : String
  pub recorded : Bool
  pub was_recording : Bool
  pub consumers : List Consumer
  pub running : Bool
  pub done : Bool
  pub error : Option String
  pub stoppable : Bool
  pub seekable : Bool
  pub seek_offset : ℕ
  pub seek_version : ℕ

abbrev pub without : String → List Consumer → List Consumer
without id cs = keep (λ c. not (c.id == id)) cs

-- `addConsumer`: the map entry of that identifier is replaced.
unfoldable pub add_consumer : Consumer → Session → Session
add_consumer c s = record s {
  consumers = c ∷ without c.id s.consumers;
  was_recording = is_recording c.kind || s.was_recording;
}

-- `consumerCount`.
abbrev pub consumer_count : Session → ℕ
consumer_count s = length s.consumers

-- `removeConsumer`, with the number that remains.
unfoldable pub remove_consumer : String → Session → Session × ℕ
remove_consumer id s =
    (record s { consumers = without id s.consumers }, length (without id s.consumers))

unfoldable pub has_recording_consumer : Session → Bool
has_recording_consumer s = any (λ c. is_recording c.kind) s.consumers

-- The loop of `RecordingConsumerID`; the empty text if there is none.
abbrev pub recording_id_in : List Consumer → String
recording_id_in [] = ""
recording_id_in (c ∷ cs) = if is_recording c.kind then c.id else recording_id_in cs

unfoldable pub recording_consumer_id : Session → String
recording_consumer_id s = recording_id_in s.consumers

-- `Record`.
unfoldable pub record_it : Session → Session
record_it s = record s { recorded = true }

-- `markDone`: the channel is closed once, and later calls change nothing.
unfoldable pub mark_done : Session → Session
mark_done s = record s { done = true }

unfoldable pub set_error : Option String → Session → Session
set_error e s = record s { error = e }

-- `GetError`: the message, or the empty text.
unfoldable pub get_error : Session → String
get_error s = elim s.error [ none ↦ "" | some e ↦ e ]

-- `StopPipeline`, and whether the stop function was called: a second call does nothing.
unfoldable pub stop_pipeline : Session → Session × Bool
stop_pipeline s = (record s { stoppable = false }, s.stoppable)

-- `Seek`; the version tells the readers of the file that the position has jumped.
unfoldable pub seek : ℕ → Session → Session × Bool
seek position s =
    if s.seekable
    then (record s { seek_offset = position; seek_version = suc s.seek_version }, true)
    else (s, false)
