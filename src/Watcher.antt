-- ===== src/Watcher.antt =====
-- pkg/session/watcher.go: the watcher of a session's directory, with the numbered segments. The
-- probe and signal messages and their decoding, and filepath.Base, are parameters.
pub mod Segments
pub mod Numbers
pub mod Turns
mod Tests
use tvproxy.Base.{
  ℕ, zero, suc, ◌+◌, String, Bool, true, false, not, ◌&&◌, ◌||◌, ◌==◌, List, [], ◌∷◌, Option, none,
  some, Result, ok, err, if◌then◌else◌,
}
use tvproxy.Base.Integers.{ℤ}
use tvproxy.Base.Text.{has_prefix, has_suffix}
use tvproxy.Watcher.Segments.{
  SegmentIndex, Answer, panicked, answer, no_segments, add, get, count, reset,
}

-- A change of a file, as fsnotify reports it, with what each attempt to read the file then gives:
-- its bytes, or nothing for an error.
pub record Event : Type 0 where
  pub path : String
  pub is_create : Bool
  pub is_write : Bool
  pub reads : ℕ → Option (List ℕ)

-- A directory entry with its joined path.
pub record Entry : Type 0 where
  pub is_dir : Bool
  pub file : Event

pub record Watcher (P S : Type 0) : Type 0 where
  pub generation : ℕ
  pub probe : Option P
  pub signal : Option S
  pub video_init : Option (List ℕ)
  pub audio_init : Option (List ℕ)
  pub video_segs : SegmentIndex
  pub audio_segs : SegmentIndex
  pub probe_ch : Option P

-- From attempt `i` on; `last` is what is returned when none is left.
abbrev pub read_from : (ℕ → Option (List ℕ)) → ℕ → ℕ → Option (List ℕ) → Option (List ℕ)
read_from reads i zero last = last
read_from reads i (suc retries) last =
    let rest = read_from reads (suc i) retries (reads i) in
    elim (reads i) [ none ↦ rest | some [] ↦ rest | some (b ∷ bytes) ↦ some (b ∷ bytes) ]

unfoldable pub read_file_retry : (ℕ → Option (List ℕ)) → ℕ → Option (List ℕ)
read_file_retry reads retries = read_from reads 0 retries (some [])

-- The channel holds one probe; a second is not sent.
abbrev pub send_probe {ℓ} : {P : Type ℓ} → P → Option P → Option P
send_probe p none = some p
send_probe p (some q) = some q

-- What a header holds after it is loaded.
abbrev pub load_init : (ℕ → Option (List ℕ)) → Option (List ℕ) → Option (List ℕ)
load_init reads dest = elim (read_file_retry reads 3) [ none ↦ dest | some bytes ↦ some bytes ]

abbrev read_segment : (String → Option (List ℕ)) → SegmentIndex → ℤ → Answer (List ℕ)
read_segment read idx seq = elim (get seq idx) [
  | panicked ↦ panicked
  | answer none ↦ answer none
  | answer (some path) ↦ answer (read path)
]

module _ {P S : Type 0} where
  abbrev pub new_watcher : Watcher P S
  new_watcher = record {
    generation = 1;
    probe = none;
    signal = none;
    video_init = none;
    audio_init = none;
    video_segs = no_segments;
    audio_segs = no_segments;
    probe_ch = none;
  }

  abbrev pub load_probe : (List ℕ → Option P) → (ℕ → Option (List ℕ)) → Watcher P S → Watcher P S
  load_probe decode reads w = elim (read_file_retry reads 3) [
    | none ↦ w
    | some bytes ↦ elim (decode bytes) [
      | none ↦ w
      | some p ↦ record w { probe = some p; probe_ch = send_probe p w.probe_ch }
    ]
  ]

  abbrev pub load_signal : (List ℕ → Option S) → (ℕ → Option (List ℕ)) → Watcher P S → Watcher P S
  load_signal decode reads w = elim (read_file_retry reads 3) [
    | none ↦ w
    | some bytes ↦ elim (decode bytes) [ none ↦ w | some s ↦ record w { signal = some s } ]
  ]

  module _ (base : String → String) (decode_probe : List ℕ → Option P)
      (decode_signal : List ℕ → Option S) where
    abbrev add_video : String → Watcher P S → Watcher P S
    add_video path w = record w { video_segs = (add path w.video_segs).0 }

    unfoldable pub handle_file : Event → Watcher P S → Watcher P S
    handle_file e w =
        let name = base e.path in
        if name == "probe.pb"
        then load_probe decode_probe e.reads w
        else if name == "signal.pb"
        then load_signal decode_signal e.reads w
        else if name == "init_video.mp4"
        then record w { video_init = load_init e.reads w.video_init }
        else if name == "init_audio.mp4"
        then record w { audio_init = load_init e.reads w.audio_init }
        else if has_prefix name "video_" && has_suffix name ".m4s"
        then add_video e.path w
        else if has_prefix name "audio_" && has_suffix name ".m4s"
        then record w { audio_segs = (add e.path w.audio_segs).0 }
        else if has_prefix name "seg" && has_suffix name ".ts"
        then (if not e.is_create then w else add_video e.path w)
        else w

    -- One turn of the loop of `run`.
    unfoldable pub on_event : Event → Watcher P S → Watcher P S
    on_event e w = if not (e.is_create || e.is_write) then w else handle_file e w

    abbrev pub scan_entries : List Entry → Watcher P S → Watcher P S
    scan_entries [] w = w
    scan_entries (e ∷ es) w = scan_entries es (
        if not e.is_dir
        then handle_file (record e.file { is_create = true; is_write = false }) w
        else w)

    -- The entries of the directory and of its segments, unless reading them fails.
    unfoldable pub scan_existing :
        Option (List Entry) → Option (List Entry) → Watcher P S → Watcher P S
    scan_existing none segments w = w
    scan_existing (some entries) none w = scan_entries entries w
    scan_existing (some entries) (some segments) w = scan_entries segments (scan_entries entries w)

  -- The generation is an int64, whose wrap-around is left out.
  unfoldable pub reset_watcher : Watcher P S → Watcher P S
  reset_watcher w = record {
    generation = suc w.generation;
    probe = none;
    signal = none;
    video_init = none;
    audio_init = none;
    video_segs = reset w.video_segs;
    audio_segs = reset w.audio_segs;
    probe_ch = w.probe_ch;
  }

  unfoldable pub video_segment : (String → Option (List ℕ)) → ℤ → Watcher P S → Answer (List ℕ)
  video_segment read seq w = read_segment read w.video_segs seq

  unfoldable pub audio_segment : (String → Option (List ℕ)) → ℤ → Watcher P S → Answer (List ℕ)
  audio_segment read seq w = read_segment read w.audio_segs seq

  unfoldable pub video_segment_count : Watcher P S → ℕ
  video_segment_count w = count w.video_segs

  unfoldable pub audio_segment_count : Watcher P S → ℕ
  audio_segment_count w = count w.audio_segs
