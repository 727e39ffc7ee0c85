-- ===== src/Watcher/Numbers.antt =====
-- pkg/session/watcher.go: which file has which number.
use tvproxy.Base.{
  ℕ, zero, suc, ◌≤◌, String, ◌≡◌, refl, ap, subst, sym, ◌∙◌, inl, inr, Bool, true, false, List, [],
  ◌∷◌, ◌++◌, Option, none, some, length, get_elem?, get_elem_iff, get_elem-nil, get_elem-All,
  All-Mem, Option-cases, if◌then◌else◌, arith, ltb, ltb→le, Bool-cases,
}
use mathlib.Core.List.{Mem}
use tvproxy.Base.Integers.{ℤ, negsuc, pos}
use tvproxy.Base.Sort.{IsSorted, sort-IsSorted, sort-append_one, put_after-get_elem}
use tvproxy.Base.Text.{text_ltb}
use tvproxy.Base.TextOrder.{text_ltb-asym, text_ltb_trans}
use tvproxy.Watcher.Segments.{SegmentIndex, Answer, panicked, answer, add, get, file_at, count}

-- The files are in the order of their names, and are as many as is counted.
abbrev pub IsOrdered : SegmentIndex → Type 0
IsOrdered si = IsSorted text_ltb si.files × (si.size ≡ length si.files)

pub add-IsOrdered : (path : String) (si : SegmentIndex) → IsOrdered (add path si).0
unfolding add
add-IsOrdered path si =
    (sort-IsSorted text_ltb text_ltb-asym text_ltb_trans (si.files ++ path ∷ []), refl)

file_at-inside :
    (xs : List String) (n : ℕ) (f : String)
    → get_elem? xs n ≡ some f
    → file_at (pos (suc n)) xs ≡ answer (get_elem? xs n)
file_at-inside xs n f e = rw (file_at, e) refl

get-pos : (n : ℕ) (si : SegmentIndex) → get (pos (suc n)) si ≡ answer (get_elem? si.files n)
unfolding get
get-pos n si =
    let z : ltb (suc n) 1 ≡ false = ground arith in
    elim (Bool-cases (ltb (length si.files) (suc n))) [
      | inl e ↦ rw (z, e) (ap answer (past si.files n e))
      | inr e ↦
          let f = (get_elem_iff si.files n).1 (omega (arith, ltb→le (length si.files) (suc n) e)) in
          rw (z, e) (file_at-inside si.files n f.0 f.1)
    ]
  where
    past :
        (xs : List String) (n : ℕ)
        → ltb (length xs) (suc n) ≡ true
        → ◌≡◌ {A = Option String} none (get_elem? xs n)
    past [] n h = refl
    past (x ∷ xs) zero h = ground (arith, h)
    past (x ∷ xs) (suc n) h = past xs n (ground (arith, h))

answer_inj :
    (o : Option String) (f : String)
    → ◌≡◌ {A = Answer String} (answer o) (answer (some f))
    → o ≡ some f
answer_inj o f e = cc

get-zero : (si : SegmentIndex) (f : String) → get (pos 0) si ≡ answer (some f) → ⊥
unfolding get
get-zero si f e = get_elem-nil f (answer_inj none f e)

-- The number is one of those from one to the count.
abbrev pub InRange : ℤ → SegmentIndex → Type 0
InRange (pos n) si = (1 ≤ n) × (n ≤ count si)
InRange (negsuc n) si = ⊥

-- What the answer to a number may be.
abbrev pub IsAnswer : ℤ → SegmentIndex → Answer String → Type 0
IsAnswer seq si panicked = ⊥
IsAnswer seq si (answer none) = ¬ InRange seq si
IsAnswer seq si (answer (some f)) = InRange seq si × Mem f si.files

get_elem-Mem : (xs : List String) (n : ℕ) (f : String) → get_elem? xs n ≡ some f → Mem f xs
get_elem-Mem xs n f e = get_elem-All (λ x. Mem x xs) xs n f (All-Mem xs) e

-- For every integer the index gives a file without an index out of range, one of its own for the
-- numbers from one to the count, and no file for any other.
pub get-IsAnswer : (seq : ℤ) (si : SegmentIndex) → IsOrdered si → IsAnswer seq si (get seq si)
unfolding get
get-IsAnswer (negsuc n) si h = λ r. r
get-IsAnswer (pos zero) si h = λ r. omega (arith, r.0)
get-IsAnswer (pos (suc n)) si h =
    subst (IsAnswer (pos (suc n)) si) (sym (get-pos n si))
      (elim (Option-cases (get_elem? si.files n)) [
        | inl e ↦ rw e (λ r. absent si.files n e (subst (λ (k : ℕ). suc n ≤ k) h.1 r.1))
        | inr f ↦ rw f.1 (
          (omega arith, subst (λ (k : ℕ). suc n ≤ k) (sym h.1) ((get_elem_iff si.files n).0 f)),
          get_elem-Mem si.files n f.0 f.1,
        )
      ])
  where
    absent : (xs : List String) (n : ℕ) → get_elem? xs n ≡ none → suc n ≤ length xs → ⊥
    absent xs n e h = let f = (get_elem_iff xs n).1 h in get_elem-nil f.0 (sym e ∙ f.1)

-- The file in place `n` of a sorted list, in the index made with one more path.
add-place :
    (path : String) (si : SegmentIndex) (n : ℕ) (f : String)
    → IsSorted text_ltb si.files
    → get_elem? si.files n ≡ some f
    → get_elem? (add path si).0.files (if text_ltb path f then suc n else n) ≡ some f
unfolding add
add-place path si n f s e =
    subst (λ (fs : List String). get_elem? fs (if text_ltb path f then suc n else n) ≡ some f)
      (sym (sort-append_one text_ltb text_ltb_trans path si.files s))
      (put_after-get_elem text_ltb text_ltb_trans path si.files n f s e)

-- After a new file is added, a file keeps its number if the name of the new one is not before its
-- own, and else its number grows by one.
pub add-get :
    (path : String) (si : SegmentIndex) (n : ℕ) (f : String)
    → IsOrdered si
    → get (pos n) si ≡ answer (some f)
    → get (pos (if text_ltb path f then suc n else n)) (add path si).0 ≡ answer (some f)
add-get path si zero f h e = elim (get-zero si f e) [ ]
add-get path si (suc n) f h e =
    let place =
      add-place path si n f h.0 (answer_inj (get_elem? si.files n) f (sym (get-pos n si) ∙ e)) in
    elim (Bool-cases (text_ltb path f)) [
      | inl b ↦ rw b (
          get-pos (suc n) (add path si).0
          ∙ ap answer (
              subst
                (λ (c : Bool). get_elem? (add path si).0.files (if c then suc n else n) ≡ some f) b
                place))
      | inr b ↦ rw b (
          get-pos n (add path si).0
          ∙ ap answer (
              subst
                (λ (c : Bool). get_elem? (add path si).0.files (if c then suc n else n) ≡ some f) b
                place))
    ]
