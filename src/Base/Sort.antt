-- ===== src/Base/Sort.antt =====
-- sort.Slice by a test `less`, as an insertion sort: Go leaves the order of equal elements open,
-- and here they keep theirs.
use tvproxy.Base.Tests.{if◌then◌else◌, Bool-cases, some_inj}
use tvproxy.Base.Lists.{All, get_elem?, get_elem-All, get_elem-nil}
use mathlib.Core.Path.{◌≡◌, refl, subst}
use mathlib.Core.Bool.{Bool, true, false}
use mathlib.Core.Logic.{inl, inr}
use mathlib.Core.Option.{some}
use Prim.Native.Nat.{ℕ, zero, suc}
use mathlib.Core.List.{List, [], ◌∷◌, ◌++◌, Perm}
use mathlib.Core.List.Perm
use native.Mathlib.Omega.{arith}

module _ {ℓ} {A : Type ℓ} (less : A → A → Bool) where
  unfoldable pub insert_sorted : A → List A → List A
  insert_sorted x [] = x ∷ []
  insert_sorted x (y ∷ ys) =
      let rest = insert_sorted x ys in if less y x then y ∷ rest else x ∷ y ∷ ys

  unfoldable pub sort : List A → List A
  unfolding insert_sorted
  sort [] = []
  sort (x ∷ xs) = insert_sorted x (sort xs)

  -- No element is less than one before it.
  abbrev pub IsSorted : List A → Type 0
  IsSorted [] = Unit {0}
  IsSorted (x ∷ xs) = All (λ y. less y x ≡ false) xs × IsSorted xs

  insert_sorted-perm : (x : A) (ys : List A) → Perm (insert_sorted x ys) (x ∷ ys)
  unfolding insert_sorted
  insert_sorted-perm x [] = Perm.refl _
  insert_sorted-perm x (y ∷ ys) = ground (
    arith,
    Perm.refl (x ∷ y ∷ ys),
    Perm.trans (Perm.cons y (insert_sorted-perm x ys)) (Perm.swap x y ys),
  )

  pub sort-perm : (xs : List A) → Perm (sort xs) xs
  unfolding sort
  sort-perm [] = Perm.refl _
  sort-perm (x ∷ xs) = Perm.trans (insert_sorted-perm x (sort xs)) (Perm.cons x (sort-perm xs))

  insert_sorted-All {κ} :
      (P : A → Type κ) (x : A) (ys : List A) → P x → All P ys → All P (insert_sorted x ys)
  unfolding insert_sorted
  insert_sorted-All P x [] h hs = (h, tt)
  insert_sorted-All P x (y ∷ ys) h hs = ground (arith, insert_sorted-All P x ys h hs.1)

  pub sort-All {κ} : (P : A → Type κ) (xs : List A) → All P xs → All P (sort xs)
  unfolding sort
  sort-All P [] h = tt
  sort-All P (x ∷ xs) h = insert_sorted-All P x (sort xs) h.0 (sort-All P xs h.1)

  insert_sorted-All_inv {κ} :
      (P : A → Type κ) (x : A) (ys : List A) → All P (insert_sorted x ys) → P x × All P ys
  unfolding insert_sorted
  insert_sorted-All_inv P x [] h = (h.0, tt)
  insert_sorted-All_inv P x (y ∷ ys) h = ground (arith, h, insert_sorted-All_inv P x ys)

  -- What holds of every element of the sorted list holds of every element.
  pub sort-All_inv {κ} : (P : A → Type κ) (xs : List A) → All P (sort xs) → All P xs
  unfolding sort
  sort-All_inv P [] h = tt
  sort-All_inv P (x ∷ xs) h =
      let r = insert_sorted-All_inv P x (sort xs) h in (r.0, sort-All_inv P xs r.1)

  module _ (asymmetric : (a b : A) → less a b ≡ true → less b a ≡ false)
      (negatively_transitive : (a b c : A)
        → less a b ≡ false
        → less b c ≡ false
        → less a c ≡ false) where
    All-not_less :
        (x y : A) (zs : List A)
        → less y x ≡ false
        → All (λ z. less z y ≡ false) zs
        → All (λ z. less z x ≡ false) zs
    All-not_less x y [] e h = tt
    All-not_less x y (z ∷ zs) e h = (negatively_transitive z y x h.0 e, All-not_less x y zs e h.1)

    insert_sorted-IsSorted : (x : A) (ys : List A) → IsSorted ys → IsSorted (insert_sorted x ys)
    unfolding insert_sorted
    insert_sorted-IsSorted x [] s = (tt, tt)
    insert_sorted-IsSorted x (y ∷ ys) s = ground (
      arith,
      asymmetric y x,
      insert_sorted-All (λ z. less z y ≡ false) x ys,
      insert_sorted-IsSorted x ys s.1,
      All-not_less x y ys,
    )

    pub sort-IsSorted : (xs : List A) → IsSorted (sort xs)
    unfolding sort
    sort-IsSorted [] = tt
    sort-IsSorted (x ∷ xs) = insert_sorted-IsSorted x (sort xs) (sort-IsSorted xs)

  -- A new element goes before the first that it is less than.
  abbrev pub put_after : A → List A → List A
  put_after x [] = x ∷ []
  put_after x (y ∷ ys) = let rest = put_after x ys in if less x y then x ∷ y ∷ ys else y ∷ rest

  insert_sorted-least :
      (x : A) (ys : List A) → All (λ y. less y x ≡ false) ys → insert_sorted x ys ≡ x ∷ ys
  unfolding insert_sorted
  insert_sorted-least x [] h = refl
  insert_sorted-least x (y ∷ ys) h = rw h.0 refl

  put_after-All {κ} :
      (P : A → Type κ) (x : A) (ys : List A) → P x → All P ys → All P (put_after x ys)
  put_after-All P x [] h hs = (h, tt)
  put_after-All P x (y ∷ ys) h hs = ground (arith, put_after-All P x ys h hs.1)

  put_after-least : (x : A) (ys : List A) → All (λ y. less x y ≡ true) ys → put_after x ys ≡ x ∷ ys
  put_after-least x [] h = refl
  put_after-least x (y ∷ ys) h = rw h.0 refl

  module _
      (negatively_transitive : (a b c : A)
        → less a b ≡ false
        → less b c ≡ false
        → less a c ≡ false) where
    -- What is less than an element is less than all that are not less than that.
    less-All :
        (x y : A) (zs : List A)
        → less x y ≡ true
        → All (λ z. less z y ≡ false) zs
        → All (λ z. less x z ≡ true) zs
    less-All x y [] e h = tt
    less-All x y (z ∷ zs) e h =
        (ground (arith, e, negatively_transitive x z y, h.0), less-All x y zs e h.1)

    -- Sorting a sorted list with a new element at its end puts the element in its place.
    pub sort-append_one : (x : A) (ys : List A) → IsSorted ys → sort (ys ++ x ∷ []) ≡ put_after x ys
    unfolding sort insert_sorted
    sort-append_one x [] s = refl
    sort-append_one x (y ∷ ys) s = elim (Bool-cases (less x y)) [
      | inl e ↦
          rw
            (
              sort-append_one x ys s.1,
              put_after-least x ys (less-All x y ys e s.0),
              e,
              insert_sorted-least y ys s.0,
            )
            refl
      | inr e ↦
          rw
            (
              sort-append_one x ys s.1,
              insert_sorted-least y (put_after x ys)
                  (put_after-All (λ z. less z y ≡ false) x ys e s.0),
              e,
            )
            refl
    ]

    -- Each element stays where it is, or is one further on when the new one is less.
    pub put_after-get_elem :
        (x : A) (ys : List A) (n : ℕ) (f : A)
        → IsSorted ys
        → get_elem? ys n ≡ some f
        → get_elem? (put_after x ys) (if less x f then suc n else n) ≡ some f
    put_after-get_elem x [] n f s g = elim (get_elem-nil f g) [ ]
    put_after-get_elem x (y ∷ ys) zero f s g = elim (Bool-cases (less x y)) [
      | inl e ↦
          subst (λ (z : A). get_elem? (put_after x (y ∷ ys)) (if less x z then 1 else 0) ≡ some z)
            (some_inj g) (rw e refl)
      | inr e ↦
          subst (λ (z : A). get_elem? (put_after x (y ∷ ys)) (if less x z then 1 else 0) ≡ some z)
            (some_inj g) (rw e refl)
    ]
    put_after-get_elem x (y ∷ ys) (suc n) f s g = elim (Bool-cases (less x y)) [
      | inl e ↦
          let h : less x f ≡ true =
            get_elem-All (λ z. less x z ≡ true) ys n f (less-All x y ys e s.0) g in
          rw (e, h) g
      | inr e ↦
          let rest = put_after-get_elem x ys n f s.1 g in
          elim (Bool-cases (less x f)) [
            | inl h ↦
                rw (e, h)
                  (subst
                    (λ (b : Bool). get_elem? (put_after x ys) (if b then suc n else n) ≡ some f) h
                    rest)
            | inr h ↦
                rw (e, h)
                  (subst
                    (λ (b : Bool). get_elem? (put_after x ys) (if b then suc n else n) ≡ some f) h
                    rest)
          ]
    ]
