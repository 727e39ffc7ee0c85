-- ===== src/Base/Keyed.antt =====
-- A slice of rows with a text key, as the stores keep them: the first row with a key is found,
-- changed or removed by a linear scan, and a new row is appended.
use Prim.Native.String.{String}
use mathlib.Core.Path.{◌≡◌, refl, sym}
use mathlib.Core.Logic.{◌≢◌}
use mathlib.Core.List.{List, [], ◌∷◌, ◌++◌}
use mathlib.Core.Bool.{Bool}
use tvproxy.Base.Lists.{All, keep}
use mathlib.Core.Option.{Option, none, some}
use native.Mathlib.Omega.{arith}
use text.Mathlib.Text.{◌==◌}
use text.Mathlib.TextEquality.{eq_iff}
use tvproxy.Base.Tests.{if◌then◌else◌}

module _ {ℓ} {A : Type ℓ} (key : A → String) where
  abbrev pub find : String → List A → Option A
  find k [] = none
  find k (x ∷ xs) = if key x == k then some x else find k xs

  abbrev pub modify : String → (A → A) → List A → List A
  modify k f [] = []
  modify k f (x ∷ xs) = if key x == k then f x ∷ xs else x ∷ modify k f xs

  abbrev pub remove : String → List A → List A
  remove k [] = []
  remove k (x ∷ xs) = if key x == k then xs else x ∷ remove k xs

  -- No row has the key.
  abbrev pub Fresh : String → List A → Type 0
  Fresh k [] = Unit {0}
  Fresh k (x ∷ xs) = (key x ≢ k) × Fresh k xs

  -- No two rows share a key.
  abbrev pub Distinct : List A → Type 0
  Distinct [] = Unit {0}
  Distinct (x ∷ xs) = Fresh (key x) xs × Distinct xs

  pub find-Fresh : (k : String) (xs : List A) → Fresh k xs → find k xs ≡ none
  find-Fresh k [] h = refl
  find-Fresh k (x ∷ xs) h = ground (arith, eq_iff (key x) k, find-Fresh k xs h.1)

  pub Fresh-of_find : (k : String) (xs : List A) → find k xs ≡ none → Fresh k xs
  Fresh-of_find k [] h = tt
  Fresh-of_find k (x ∷ xs) h = ground (arith, eq_iff (key x) k, Fresh-of_find k xs)

  pub key-find : (k : String) (xs : List A) (a : A) → find k xs ≡ some a → key a ≡ k
  key-find k [] a h = ground arith
  key-find k (x ∷ xs) a h = ground (arith, eq_iff (key x) k, key-find k xs a)

  pub find-append_new :
      (k : String) (xs : List A) (a : A)
      → key a ≡ k
      → find k xs ≡ none
      → find k (xs ++ a ∷ []) ≡ some a
  find-append_new k [] a e h = ground (arith, eq_iff (key a) k)
  find-append_new k (x ∷ xs) a e h = ground (arith, find-append_new k xs a e)

  pub find-append_old :
      (k : String) (xs : List A) (a : A) → key a ≢ k → find k (xs ++ a ∷ []) ≡ find k xs
  find-append_old k [] a e = ground (arith, eq_iff (key a) k)
  find-append_old k (x ∷ xs) a e = ground (arith, find-append_old k xs a e)

  pub find-modify :
      (k : String) (f : A → A) (xs : List A) (a : A)
      → ((b : A) → key (f b) ≡ key b)
      → find k xs ≡ some a
      → find k (modify k f xs) ≡ some (f a)
  find-modify k f [] a e h = ground arith
  find-modify k f (x ∷ xs) a e h =
      ground (arith, e x, eq_iff (key x) k, eq_iff (key (f x)) k, find-modify k f xs a e)

  pub find-modify_ne :
      (j k : String) (f : A → A) (xs : List A)
      → ((b : A) → key (f b) ≡ key b)
      → j ≢ k
      → find j (modify k f xs) ≡ find j xs
  find-modify_ne j k f [] e n = refl
  find-modify_ne j k f (x ∷ xs) e n = ground (
    arith,
    e x,
    eq_iff (key x) k,
    eq_iff (key x) j,
    eq_iff (key (f x)) j,
    find-modify_ne j k f xs e n,
  )

  pub find-remove : (k : String) (xs : List A) → Distinct xs → find k (remove k xs) ≡ none
  find-remove k [] d = refl
  find-remove k (x ∷ xs) d =
      ground (arith, eq_iff (key x) k, find-Fresh (key x) xs d.0, find-remove k xs d.1)

  pub find-remove_ne : (j k : String) (xs : List A) → j ≢ k → find j (remove k xs) ≡ find j xs
  find-remove_ne j k [] n = refl
  find-remove_ne j k (x ∷ xs) n =
      ground (arith, eq_iff (key x) k, eq_iff (key x) j, find-remove_ne j k xs n)

  pub Fresh-append : (k : String) (xs ys : List A) → Fresh k xs → Fresh k ys → Fresh k (xs ++ ys)
  Fresh-append k [] ys h g = g
  Fresh-append k (x ∷ xs) ys h g = (h.0, Fresh-append k xs ys h.1 g)

  pub Distinct-append :
      (xs : List A) (a : A) → Distinct xs → Fresh (key a) xs → Distinct (xs ++ a ∷ [])
  Distinct-append [] a d h = (tt, tt)
  Distinct-append (x ∷ xs) a d h =
      (Fresh-append (key x) xs (a ∷ []) d.0 (λ e. h.0 (sym e), tt), Distinct-append xs a d.1 h.1)

  pub Fresh-modify :
      (j k : String) (f : A → A) (xs : List A)
      → ((b : A) → key (f b) ≡ key b)
      → Fresh j xs
      → Fresh j (modify k f xs)
  Fresh-modify j k f [] e h = tt
  Fresh-modify j k f (x ∷ xs) e h = ground (arith, e x, Fresh-modify j k f xs e h.1)

  pub Distinct-modify :
      (k : String) (f : A → A) (xs : List A)
      → ((b : A) → key (f b) ≡ key b)
      → Distinct xs
      → Distinct (modify k f xs)
  Distinct-modify k f [] e d = tt
  Distinct-modify k f (x ∷ xs) e d =
      ground (arith, e x, Fresh-modify (key x) k f xs e d.0, Distinct-modify k f xs e d.1)

  pub Fresh-remove : (j k : String) (xs : List A) → Fresh j xs → Fresh j (remove k xs)
  Fresh-remove j k [] h = tt
  Fresh-remove j k (x ∷ xs) h = ground (arith, Fresh-remove j k xs h.1)

  pub Distinct-remove : (k : String) (xs : List A) → Distinct xs → Distinct (remove k xs)
  Distinct-remove k [] d = tt
  Distinct-remove k (x ∷ xs) d =
      ground (arith, Fresh-remove (key x) k xs d.0, Distinct-remove k xs d.1)

  pub modify-absent : (k : String) (f : A → A) (xs : List A) → find k xs ≡ none → modify k f xs ≡ xs
  modify-absent k f [] h = refl
  modify-absent k f (x ∷ xs) h = ground (arith, modify-absent k f xs)

  pub remove-absent : (k : String) (xs : List A) → find k xs ≡ none → remove k xs ≡ xs
  remove-absent k [] h = refl
  remove-absent k (x ∷ xs) h = ground (arith, remove-absent k xs)

  All-find_cons :
      (x : A) (xs ys : List A)
      → Fresh (key x) xs
      → All (λ y. find (key y) ys ≡ some y) xs
      → All (λ y. find (key y) (x ∷ ys) ≡ some y) xs
  All-find_cons x [] ys f h = tt
  All-find_cons x (y ∷ xs) ys f h =
      (ground (arith, eq_iff (key x) (key y)), All-find_cons x xs ys f.1 h.1)

  -- Where no two rows share a key, each row is found under its own.
  pub Distinct-find : (xs : List A) → Distinct xs → All (λ x. find (key x) xs ≡ some x) xs
  Distinct-find [] d = tt
  Distinct-find (x ∷ xs) d =
      (ground (arith, eq_iff (key x) (key x)), All-find_cons x xs xs d.0 (Distinct-find xs d.1))

  pub Fresh-keep : (k : String) (p : A → Bool) (xs : List A) → Fresh k xs → Fresh k (keep p xs)
  Fresh-keep k p [] h = tt
  Fresh-keep k p (x ∷ xs) h = ground (arith, Fresh-keep k p xs h.1)

  pub Distinct-keep : (p : A → Bool) (xs : List A) → Distinct xs → Distinct (keep p xs)
  Distinct-keep p [] d = tt
  Distinct-keep p (x ∷ xs) d = ground (arith, Fresh-keep (key x) p xs d.0, Distinct-keep p xs d.1)
