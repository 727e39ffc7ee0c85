-- ===== src/Base/Maps.antt =====
-- Go's maps with text keys, as lists of pairs, and lists that correspond element by element. The
-- order of a list of pairs stands for one of the orders in which Go may walk the map.
use Prim.Native.String.{String}
use mathlib.Core.Path.{◌≡◌, refl, sym, subst, ◌∙◌}
use mathlib.Core.Logic.{◌≢◌, inl, inr}
use mathlib.Core.Bool.{Bool}
use mathlib.Core.List.{List, [], ◌∷◌}
use mathlib.Core.Option.{Option, none, some}
use native.Mathlib.Omega.{arith}
use text.Mathlib.Text.{◌==◌}
use text.Mathlib.TextEquality.{eq_iff}
use tvproxy.Base.Tests.{if◌then◌else◌, Bool-cases, ==→ne, some_inj}
use tvproxy.Base.Lists.{keep, All}
use tvproxy.Base.Sort.{sort, insert_sorted}

abbrev pub Map {ℓ} : Type ℓ → Type ℓ
Map A = List (String × A)

module _ {ℓ} {A : Type ℓ} where
  abbrev pub lookup : String → Map A → Option A
  lookup k [] = none
  lookup k ((l, a) ∷ rows) = if l == k then some a else lookup k rows

  abbrev pub put : String → A → Map A → Map A
  put k a [] = (k, a) ∷ []
  put k a ((l, b) ∷ rows) = if l == k then (l, a) ∷ rows else (l, b) ∷ put k a rows

  abbrev pub erase : String → Map A → Map A
  erase k [] = []
  erase k ((l, a) ∷ rows) = let rest = erase k rows in if l == k then rest else (l, a) ∷ rest

  abbrev pub values : Map A → List A
  values [] = []
  values ((k, a) ∷ rows) = a ∷ values rows

  abbrev pub keys : Map A → List String
  keys [] = []
  keys ((k, a) ∷ rows) = k ∷ keys rows

  pub put-put : (k : String) (a b : A) (rows : Map A) → put k b (put k a rows) ≡ put k b rows
  put-put k a b [] = ground (arith, eq_iff k k)
  put-put k a b ((l, c) ∷ rows) = ground (arith, put-put k a b rows)

  pub lookup-put : (k : String) (a : A) (rows : Map A) → lookup k (put k a rows) ≡ some a
  lookup-put k a [] = ground (arith, eq_iff k k)
  lookup-put k a ((l, c) ∷ rows) = ground (arith, lookup-put k a rows)

-- Laws of maps, and of what holds of their rows.
module _ {A : Type 0} where
  pub lookup-put_ne :
      (j k : String) (a : A) (rows : Map A) → j ≢ k → lookup j (put k a rows) ≡ lookup j rows
  lookup-put_ne j k a [] n = ground (arith, eq_iff k j)
  lookup-put_ne j k a ((l, b) ∷ rows) n =
      ground (arith, eq_iff l k, eq_iff l j, lookup-put_ne j k a rows n)

  pub lookup-erase_ne :
      (j k : String) (rows : Map A) → j ≢ k → lookup j (erase k rows) ≡ lookup j rows
  lookup-erase_ne j k [] n = refl
  lookup-erase_ne j k ((l, b) ∷ rows) n =
      ground (arith, eq_iff l k, eq_iff l j, lookup-erase_ne j k rows n)

  -- No two rows have the same key.
  abbrev pub IsMap : Map A → Type 0
  IsMap [] = Unit
  IsMap ((k, a) ∷ rows) = (lookup k rows ≡ none) × IsMap rows

  pub put-IsMap : (k : String) (a : A) (rows : Map A) → IsMap rows → IsMap (put k a rows)
  put-IsMap k a [] h = (refl, tt)
  put-IsMap k a ((l, b) ∷ rows) h = elim (Bool-cases (l == k)) [
    | inl e ↦ rw e h
    | inr e ↦ rw e (lookup-put_ne l k a rows (==→ne l k e) ∙ h.0, put-IsMap k a rows h.1)
  ]

  lookup-erase-none :
      (j k : String) (rows : Map A) → lookup j rows ≡ none → lookup j (erase k rows) ≡ none
  lookup-erase-none j k [] h = refl
  lookup-erase-none j k ((l, b) ∷ rows) h = ground (arith, h, lookup-erase-none j k rows)

  pub erase-IsMap : (k : String) (rows : Map A) → IsMap rows → IsMap (erase k rows)
  erase-IsMap k [] h = tt
  erase-IsMap k ((l, b) ∷ rows) h =
      ground (arith, lookup-erase-none l k rows h.0, erase-IsMap k rows h.1)

  pub All-lookup :
      (P : String × A → Type 0) (k : String) (rows : Map A) (a : A)
      → All P rows
      → lookup k rows ≡ some a
      → P (k, a)
  All-lookup P k [] a h e = ground (arith, e)
  All-lookup P k ((l, b) ∷ rows) a h e = elim (Bool-cases (l == k)) [
    | inl q ↦
        let same : some b ≡ some a = rw q at e in
        subst (λ (z : A). P (k, z)) (some_inj same)
          (subst (λ (z : String). P (z, b)) ((eq_iff l k).0 q) h.0)
    | inr q ↦ All-lookup P k rows a h.1 (rw q at e)
  ]

  module _ (P Q : String × A → Type 0) (k : String)
      (other : (l : String) (b : A) → l ≢ k → P (l, b) → Q (l, b)) where
    pub All-erase : (rows : Map A) → All P rows → All Q (erase k rows)
    All-erase [] h = tt
    All-erase ((l, b) ∷ rows) h = elim (Bool-cases (l == k)) [
      | inl e ↦ rw e (All-erase rows h.1)
      | inr e ↦ rw e (other l b (==→ne l k e) h.0, All-erase rows h.1)
    ]

    All-absent : (rows : Map A) → lookup k rows ≡ none → All P rows → All Q rows
    All-absent [] e h = tt
    All-absent ((l, b) ∷ rows) e h = elim (Bool-cases (l == k)) [
      | inl q ↦ ground (arith, e, q)
      | inr q ↦ (other l b (==→ne l k q) h.0, All-absent rows (rw q at e) h.1)
    ]

    pub All-put : (a : A) (rows : Map A) → IsMap rows → Q (k, a) → All P rows → All Q (put k a rows)
    All-put a [] m q h = (q, tt)
    All-put a ((l, b) ∷ rows) m q h = elim (Bool-cases (l == k)) [
      | inl e ↦
          let same = (eq_iff l k).0 e in
          rw e (
            subst (λ (z : String). Q (z, a)) (sym same) q,
            All-absent rows (subst (λ (z : String). lookup z rows ≡ none) same m.0) h.1,
          )
      | inr e ↦ rw e (other l b (==→ne l k e) h.0, All-put a rows m.1 q h.1)
    ]

module _ {ℓ κ} {A : Type ℓ} {B : Type κ} (R : A → B → Type 0) where
  -- Two lists of one length whose elements correspond in order.
  abbrev pub Related : List A → List B → Type 0
  Related [] [] = Unit
  Related [] (b ∷ ys) = ⊥
  Related (a ∷ xs) [] = ⊥
  Related (a ∷ xs) (b ∷ ys) = R a b × Related xs ys

  pub keep-Related :
      (p : A → Bool) (q : B → Bool) (xs : List A) (ys : List B)
      → ((a : A) (b : B) → R a b → p a ≡ q b)
      → Related xs ys
      → Related (keep p xs) (keep q ys)
  keep-Related p q [] [] same h = tt
  keep-Related p q [] (b ∷ ys) same h = elim h [ ]
  keep-Related p q (a ∷ xs) [] same h = elim h [ ]
  keep-Related p q (a ∷ xs) (b ∷ ys) same h =
      ground (arith, h, same a b h.0, keep-Related p q xs ys same h.1)

  module _ (less : A → A → Bool) (less_too : B → B → Bool)
      (same : (a c : A) (b d : B) → R a b → R c d → less a c ≡ less_too b d) where
    insert_sorted-Related :
        (a : A) (b : B) (xs : List A) (ys : List B)
        → R a b
        → Related xs ys
        → Related (insert_sorted less a xs) (insert_sorted less_too b ys)
    unfolding insert_sorted
    insert_sorted-Related a b [] [] r h = (r, tt)
    insert_sorted-Related a b [] (d ∷ ys) r h = elim h [ ]
    insert_sorted-Related a b (c ∷ xs) [] r h = elim h [ ]
    insert_sorted-Related a b (c ∷ xs) (d ∷ ys) r h =
        ground (arith, h, r, same c a d b h.0 r, insert_sorted-Related a b xs ys r h.1)

    pub sort-Related :
        (xs : List A) (ys : List B) → Related xs ys → Related (sort less xs) (sort less_too ys)
    unfolding sort
    sort-Related [] [] h = tt
    sort-Related [] (b ∷ ys) h = elim h [ ]
    sort-Related (a ∷ xs) [] h = elim h [ ]
    sort-Related (a ∷ xs) (b ∷ ys) h =
        insert_sorted-Related a b (sort less xs) (sort less_too ys) h.0 (sort-Related xs ys h.1)
