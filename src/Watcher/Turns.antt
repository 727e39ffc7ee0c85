-- ===== src/Watcher/Turns.antt =====
-- pkg/session/watcher.go: what every run of the watcher keeps.
use tvproxy.Base.{
  ℕ, String, refl, inl, inr, true, false, not, ◌&&◌, ◌==◌, List, [], ◌∷◌, Option, none, some,
  if◌then◌else◌, arith, Option-cases, if_of_both,
}
use tvproxy.Base.Text.{has_prefix, has_suffix}
use tvproxy.Watcher.{
  Watcher, Event, Entry, new_watcher, load_probe, load_signal, load_init, read_file_retry,
  handle_file, on_event, scan_entries, scan_existing, reset_watcher,
}
use tvproxy.Watcher.Segments.{add}
use tvproxy.Watcher.Numbers.{IsOrdered, add-IsOrdered}

-- What happens to a watcher after it is made: a reported change, or a reset.
pub data Turn : Type 0 where
  event : Event → Turn
  restart : Turn

module _ {P S : Type 0} where
  -- Both tracks are in order.
  abbrev pub AreOrdered : Watcher P S → Type 0
  AreOrdered w = IsOrdered w.video_segs × IsOrdered w.audio_segs

  load_probe-AreOrdered :
      (decode : List ℕ → Option P) (reads : ℕ → Option (List ℕ)) (w : Watcher P S)
      → AreOrdered w
      → AreOrdered (load_probe decode reads w)
  load_probe-AreOrdered decode reads w h = elim (Option-cases (read_file_retry reads 3)) [
    | inl e ↦ rw (load_probe, e) h
    | inr b ↦ elim (Option-cases (decode b.0)) [
      | inl e ↦ rw (load_probe, b.1, e) h
      | inr p ↦ rw (load_probe, b.1, p.1) h
    ]
  ]

  load_signal-AreOrdered :
      (decode : List ℕ → Option S) (reads : ℕ → Option (List ℕ)) (w : Watcher P S)
      → AreOrdered w
      → AreOrdered (load_signal decode reads w)
  load_signal-AreOrdered decode reads w h = elim (Option-cases (read_file_retry reads 3)) [
    | inl e ↦ rw (load_signal, e) h
    | inr b ↦ elim (Option-cases (decode b.0)) [
      | inl e ↦ rw (load_signal, b.1, e) h
      | inr p ↦ rw (load_signal, b.1, p.1) h
    ]
  ]

  module _ (base : String → String) (decode_probe : List ℕ → Option P)
      (decode_signal : List ℕ → Option S) where
    -- What holds of the watcher after each kind of file holds after any file.
    handle_file-Kept :
        (Q : Watcher P S → Type 0) (e : Event) (w : Watcher P S)
        → Q w
        → Q (load_probe decode_probe e.reads w)
        → Q (load_signal decode_signal e.reads w)
        → Q (record w { video_init = load_init e.reads w.video_init })
        → Q (record w { audio_init = load_init e.reads w.audio_init })
        → Q (record w { video_segs = (add e.path w.video_segs).0 })
        → Q (record w { audio_segs = (add e.path w.audio_segs).0 })
        → Q (handle_file base decode_probe decode_signal e w)
    unfolding handle_file
    handle_file-Kept Q e w same probe signal video_init audio_init video audio =
        let name = base e.path in
        if_of_both Q (name == "probe.pb") _ _ probe (
          if_of_both Q (name == "signal.pb") _ _ signal (
            if_of_both Q (name == "init_video.mp4") _ _ video_init (
              if_of_both Q (name == "init_audio.mp4") _ _ audio_init (
                if_of_both Q (has_prefix name "video_" && has_suffix name ".m4s") _ _ video (
                  if_of_both Q (has_prefix name "audio_" && has_suffix name ".m4s") _ _ audio (
                    if_of_both Q (has_prefix name "seg" && has_suffix name ".ts") _ _
                      (if_of_both Q (not e.is_create) _ _ same video) same))))))

    handle_file-AreOrdered :
        (e : Event) (w : Watcher P S)
        → AreOrdered w
        → AreOrdered (handle_file base decode_probe decode_signal e w)
    handle_file-AreOrdered e w h =
        handle_file-Kept AreOrdered e w h (load_probe-AreOrdered decode_probe e.reads w h)
          (load_signal-AreOrdered decode_signal e.reads w h) h h
          (add-IsOrdered e.path w.video_segs, h.1) (h.0, add-IsOrdered e.path w.audio_segs)

    abbrev pub take_turns : List Turn → Watcher P S → Watcher P S
    take_turns [] w = w
    take_turns (event e ∷ ts) w = take_turns ts (on_event base decode_probe decode_signal e w)
    take_turns (restart ∷ ts) w = take_turns ts (reset_watcher w)

    on_event-AreOrdered :
        (e : Event) (w : Watcher P S)
        → AreOrdered w
        → AreOrdered (on_event base decode_probe decode_signal e w)
    unfolding on_event
    on_event-AreOrdered e w h = ground (arith, h, handle_file-AreOrdered e w h)

    scan_entries-AreOrdered :
        (es : List Entry) (w : Watcher P S)
        → AreOrdered w
        → AreOrdered (scan_entries base decode_probe decode_signal es w)
    scan_entries-AreOrdered [] w h = h
    scan_entries-AreOrdered (e ∷ es) w h =
        let found = record e.file { is_create = true; is_write = false } in
        scan_entries-AreOrdered es
          (if not e.is_dir then handle_file base decode_probe decode_signal found w else w)
          (ground (arith, h, handle_file-AreOrdered found w h))

    scan_existing-AreOrdered :
        (entries segments : Option (List Entry)) (w : Watcher P S)
        → AreOrdered w
        → AreOrdered (scan_existing base decode_probe decode_signal entries segments w)
    unfolding scan_existing
    scan_existing-AreOrdered none segments w h = h
    scan_existing-AreOrdered (some es) none w h = scan_entries-AreOrdered es w h
    scan_existing-AreOrdered (some es) (some ss) w h =
        scan_entries-AreOrdered ss _ (scan_entries-AreOrdered es w h)

    take_turns-AreOrdered :
        (ts : List Turn) (w : Watcher P S) → AreOrdered w → AreOrdered (take_turns ts w)
    unfolding reset_watcher
    take_turns-AreOrdered [] w h = h
    take_turns-AreOrdered (event e ∷ ts) w h =
        take_turns-AreOrdered ts (on_event base decode_probe decode_signal e w)
          (on_event-AreOrdered e w h)
    take_turns-AreOrdered (restart ∷ ts) w h =
        take_turns-AreOrdered ts (reset_watcher w) ((tt, refl), (tt, refl))

    -- From the scan of the directories on, whatever changes are reported and whenever the watcher is
    -- reset, the index of each track is in the order of the names, and its count is the number of its
    -- entries, where a file that was added twice has two.
    pub run-AreOrdered :
        (entries segments : Option (List Entry)) (ts : List Turn)
        → AreOrdered (
            take_turns ts
              (scan_existing base decode_probe decode_signal entries segments new_watcher))
    run-AreOrdered entries segments ts =
        take_turns-AreOrdered ts _
          (scan_existing-AreOrdered entries segments new_watcher ((tt, refl), (tt, refl)))
