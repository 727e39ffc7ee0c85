-- ===== src/Watcher/Tests.antt =====
-- A watcher of a few segments: the witnesses of the theorems, and runs of the watcher.
use tvproxy.Base.{
  ℕ, String, ◌≡◌, refl, true, false, List, [], ◌∷◌, Option, none, some, nat_eq, if◌then◌else◌,
}
use tvproxy.Base.Sort.{sort, insert_sorted}
use tvproxy.Base.Integers.{pos}
use tvproxy.Base.Text.{has_prefix, has_suffix}
use tvproxy.Watcher.{
  Event, Entry, handle_file, on_event, read_file_retry, new_watcher, scan_existing,
}
use tvproxy.Watcher.Segments.{SegmentIndex, answer, add, get}
use tvproxy.Watcher.Numbers.{IsOrdered, add-get, IsAnswer, get-IsAnswer}
use tvproxy.Watcher.Turns.{AreOrdered, Turn, event, take_turns, run-AreOrdered}

-- Two segments as the muxer names them.
abbrev two_segments : SegmentIndex
two_segments = record { files = "seg1.ts" ∷ "seg2.ts" ∷ []; size = 2 }

two_segments-IsOrdered : IsOrdered two_segments
two_segments-IsOrdered = (((refl, tt), (tt, tt)), refl)

-- The second segment becomes the third when the tenth is written.
add-get_example : get (pos 3) (add "seg10.ts" two_segments).0 ≡ answer (some "seg2.ts")
unfolding get
add-get_example = add-get "seg10.ts" two_segments 2 "seg2.ts" two_segments-IsOrdered refl

get-IsAnswer_example : IsAnswer (pos 2) two_segments (get (pos 2) two_segments)
get-IsAnswer_example = get-IsAnswer (pos 2) two_segments two_segments-IsOrdered

abbrev reads_late : ℕ → Option (List ℕ)
reads_late i = if nat_eq i 2 then some (7 ∷ []) else some []

abbrev whole : String → String
whole s = s

abbrev any_bytes : List ℕ → Option (List ℕ)
any_bytes b = some b

abbrev changed : String → Event
changed path = record { path = path; is_create = true; is_write = false; reads = reads_late }

abbrev two_turns : List Turn
two_turns = event (changed "video_2.m4s") ∷ event (changed "probe.pb") ∷ []

abbrev found : Option (List Entry)
found = some (record { is_dir = false; file = changed "seg1.ts" } ∷ [])

after_turns :
    take_turns whole any_bytes any_bytes two_turns
      (scan_existing whole any_bytes any_bytes found none new_watcher)
    ≡ record new_watcher {
      probe = some (7 ∷ []);
      probe_ch = some (7 ∷ []);
      video_segs = record { files = "seg1.ts" ∷ "video_2.m4s" ∷ []; size = 2 };
    }
unfolding scan_existing on_event handle_file read_file_retry has_prefix has_suffix add sort
    insert_sorted
after_turns = refl

run-AreOrdered_example : AreOrdered (
    take_turns whole any_bytes any_bytes two_turns
      (scan_existing whole any_bytes any_bytes found none new_watcher))
run-AreOrdered_example = run-AreOrdered whole any_bytes any_bytes found none two_turns
