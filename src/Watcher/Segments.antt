-- ===== src/Watcher/Segments.antt =====
-- pkg/session/watcher.go: segmentIndex, the files of one track in the order of their names.
use tvproxy.Base.{
  ℕ, zero, suc, String, ◌||◌, List, [], ◌∷◌, ◌++◌, Option, none, some, length, get_elem?,
  if◌then◌else◌,
}
use tvproxy.Base.Integers.{ℤ, pos, negsuc, int_ltb}
use tvproxy.Base.Sort.{sort}
use tvproxy.Base.Text.{text_ltb}

pub record SegmentIndex : Type 0 where
  pub files : List String
  pub size : ℕ

abbrev pub no_segments : SegmentIndex
no_segments = record { files = []; size = 0 }

-- With the new count.
unfoldable pub add : String → SegmentIndex → SegmentIndex × ℕ
add path si =
    let files = sort text_ltb (si.files ++ path ∷ []) in
    (record { files = files; size = length files }, length files)

-- An index out of range panics.
pub data Answer {ℓ} (A : Type ℓ) : Type ℓ where
  panicked : Answer A
  answer : Option A → Answer A

-- `si.files[seq-1]`.
abbrev pub file_at : ℤ → List String → Answer String
file_at (pos zero) files = panicked
file_at (pos (suc n)) files = elim (get_elem? files n) [
  | none ↦ panicked
  | some f ↦ answer (some f)
]
file_at (negsuc n) files = panicked

unfoldable pub get : ℤ → SegmentIndex → Answer String
get seq si =
    if int_ltb seq (pos 1) || int_ltb (pos (length si.files)) seq
    then answer none
    else file_at seq si.files

abbrev pub count : SegmentIndex → ℕ
count si = si.size

abbrev pub reset : SegmentIndex → SegmentIndex
reset si = record { files = []; size = 0 }
