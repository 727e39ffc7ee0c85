-- ===== src/Base/Lists.antt =====
-- Lists measured and indexed by native numbers, Boolean filters, and predicates by recursion.
use Prim.Native.Nat.{ℕ, zero, suc, ◌+◌, ◌-◌, ◌≤◌}
use mathlib.Core.Path.{◌≡◌, refl, ap, subst}
use mathlib.Core.Logic.{◌↔◌, ◌⊎◌, inl, inr}
use mathlib.Core.Bool.{Bool, true, false, ◌&&◌, ◌||◌}
use mathlib.Core.List.{List, [], ◌∷◌, ◌++◌, Mem, mem-cons_self, mem-cons_of_mem}
use mathlib.Core.Option.{Option, none, some}
use native.Mathlib.Omega.{arith}
use tvproxy.Base.Tests.{if◌then◌else◌, Bool-cases, some_inj}

module _ {ℓ} {A : Type ℓ} where
  abbrev pub length : List A → ℕ
  length [] = 0
  length (x ∷ xs) = suc (length xs)

  abbrev pub get_elem? : List A → ℕ → Option A
  get_elem? [] i = none
  get_elem? (x ∷ xs) zero = some x
  get_elem? (x ∷ xs) (suc i) = get_elem? xs i

  abbrev pub take : ℕ → List A → List A
  take zero xs = []
  take (suc n) [] = []
  take (suc n) (x ∷ xs) = x ∷ take n xs

  abbrev pub drop : ℕ → List A → List A
  drop zero xs = xs
  drop (suc n) [] = []
  drop (suc n) (x ∷ xs) = drop n xs

  -- The elements that pass a Boolean test, in their order.
  abbrev pub keep : (A → Bool) → List A → List A
  keep p [] = []
  keep p (x ∷ xs) = let rest = keep p xs in if p x then x ∷ rest else rest

  abbrev pub any : (A → Bool) → List A → Bool
  any p [] = false
  any p (x ∷ xs) = p x || any p xs

  abbrev pub all : (A → Bool) → List A → Bool
  all p [] = true
  all p (x ∷ xs) = p x && all p xs

  pub length-append : (xs ys : List A) → length (xs ++ ys) ≡ length xs + length ys
  length-append [] ys = omega arith
  length-append (x ∷ xs) ys = omega (arith, length-append xs ys)

  pub length-keep-le : (p : A → Bool) (xs : List A) → length (keep p xs) ≤ length xs
  length-keep-le p [] = omega arith
  length-keep-le p (x ∷ xs) = ground (arith, length-keep-le p xs)

  pub take-append-drop : (n : ℕ) (xs : List A) → take n xs ++ drop n xs ≡ xs
  take-append-drop zero xs = refl
  take-append-drop (suc n) [] = refl
  take-append-drop (suc n) (x ∷ xs) = ap (◌∷◌ x) (take-append-drop n xs)

  pub take-length : (xs ys : List A) → take (length xs) (xs ++ ys) ≡ xs
  take-length [] ys = refl
  take-length (x ∷ xs) ys = ap (◌∷◌ x) (take-length xs ys)

  pub take-all : (xs : List A) → take (length xs) xs ≡ xs
  take-all [] = refl
  take-all (x ∷ xs) = ap (◌∷◌ x) (take-all xs)

  pub drop-length : (xs ys : List A) → drop (length xs) (xs ++ ys) ≡ ys
  drop-length [] ys = refl
  drop-length (x ∷ xs) ys = drop-length xs ys

  take-append_le : (n : ℕ) (xs ys : List A) → n ≤ length xs → take n (xs ++ ys) ≡ take n xs
  take-append_le zero xs ys h = refl
  take-append_le (suc n) [] ys h = ground (arith, h)
  take-append_le (suc n) (x ∷ xs) ys h = ap (◌∷◌ x) (take-append_le n xs ys (omega (arith, h)))

  -- A piece of a list stays where it is when more is appended.
  pub take-drop_append :
      (o n : ℕ) (xs ys : List A)
      → o + n ≤ length xs
      → take n (drop o (xs ++ ys)) ≡ take n (drop o xs)
  take-drop_append zero n xs ys h = take-append_le n xs ys (omega (arith, h))
  take-drop_append (suc o) n [] ys h = ground (arith, h)
  take-drop_append (suc o) n (x ∷ xs) ys h = take-drop_append o n xs ys (omega (arith, h))

  pub drop-length_plus : (n : ℕ) (xs ys : List A) → drop (length xs + n) (xs ++ ys) ≡ drop n ys
  drop-length_plus n [] ys = let e : 0 + n ≡ n = omega arith in rw e refl
  drop-length_plus n (x ∷ xs) ys =
      let e : suc (length xs) + n ≡ suc (length xs + n) = omega arith in
      rw e (drop-length_plus n xs ys)

  pub append_assoc : (xs ys zs : List A) → (xs ++ ys) ++ zs ≡ xs ++ (ys ++ zs)
  append_assoc [] ys zs = refl
  append_assoc (x ∷ xs) ys zs = ap (◌∷◌ x) (append_assoc xs ys zs)

  pub append_nil : (xs : List A) → xs ++ [] ≡ xs
  append_nil [] = refl
  append_nil (x ∷ xs) = ap (◌∷◌ x) (append_nil xs)

  pub length-take-le : (n : ℕ) (xs : List A) → length (take n xs) ≤ n
  length-take-le zero xs = omega arith
  length-take-le (suc n) [] = omega arith
  length-take-le (suc n) (x ∷ xs) = omega (arith, length-take-le n xs)

  pub length-take-le_all : (n : ℕ) (xs : List A) → length (take n xs) ≤ length xs
  length-take-le_all zero xs = omega arith
  length-take-le_all (suc n) [] = omega arith
  length-take-le_all (suc n) (x ∷ xs) = omega (arith, length-take-le_all n xs)

  pub length-drop : (n : ℕ) (xs : List A) → length (drop n xs) ≡ length xs - n
  length-drop zero xs = omega arith
  length-drop (suc n) [] = omega arith
  length-drop (suc n) (x ∷ xs) = omega (arith, length-drop n xs)

  pub keep-append : (p : A → Bool) (xs ys : List A) → keep p (xs ++ ys) ≡ keep p xs ++ keep p ys
  keep-append p [] ys = refl
  keep-append p (x ∷ xs) ys = ground (arith, keep-append p xs ys)

module _ {ℓ κ} {A : Type ℓ} where
  abbrev pub All : (A → Type κ) → List A → Type κ
  All P [] = Unit
  All P (x ∷ xs) = P x × All P xs

  pub All-append : (P : A → Type κ) (xs ys : List A) → All P xs → All P ys → All P (xs ++ ys)
  All-append P [] ys hx hy = hy
  All-append P (x ∷ xs) ys hx hy = (hx.0, All-append P xs ys hx.1 hy)

  pub All-keep : (P : A → Type κ) (p : A → Bool) (xs : List A) → All P xs → All P (keep p xs)
  All-keep P p [] h = tt
  All-keep P p (x ∷ xs) h = ground (arith, All-keep P p xs h.1)

  pub All-mono : (P Q : A → Type κ) (xs : List A) → ((a : A) → P a → Q a) → All P xs → All Q xs
  All-mono P Q [] f h = tt
  All-mono P Q (x ∷ xs) f h = (f x h.0, All-mono P Q xs f h.1)

-- What passes a filter meets its test.
pub keep-All {ℓ} : {A : Type ℓ} (p : A → Bool) (xs : List A) → All (λ a. p a ≡ true) (keep p xs)
keep-All p [] = tt
keep-All p (x ∷ xs) = ground (arith, keep-All p xs)

pub List-cases {ℓ} :
    {A : Type ℓ} (xs : List A) → (xs ≡ []) ⊎ ((y : A) × (ys : List A) × (xs ≡ y ∷ ys))
List-cases [] = inl refl
List-cases (x ∷ xs) = inr (x, xs, refl)

-- No element passes a test exactly when every one fails it.
pub any-false {ℓ} :
    {A : Type ℓ} (p : A → Bool) (xs : List A) → (any p xs ≡ false) ↔ All (λ a. p a ≡ false) xs
any-false p [] = (λ h. tt, λ h. refl)
any-false p (x ∷ xs) =
    let rest = any-false p xs in
    (λ h. ground (arith, h, rest), λ h. ground (arith, h.0, rest.1 h.1))

-- A filter that keeps nothing is failed by every element.
pub keep-nothing {ℓ} :
    {A : Type ℓ} (p : A → Bool) (xs : List A) → keep p xs ≡ [] → All (λ a. p a ≡ false) xs
keep-nothing p [] h = tt
keep-nothing p (x ∷ xs) h = ground (arith, h, keep-nothing p xs)

pub All-Mem {ℓ} : {A : Type ℓ} (xs : List A) → All (λ x. Mem x xs) xs
All-Mem [] = tt
All-Mem {A} (x ∷ xs) = (
  mem-cons_self,
  All-mono (λ (y : A). Mem y xs) (λ y. Mem y (x ∷ xs)) xs (λ y m. mem-cons_of_mem x m) (All-Mem xs),
)

-- What holds of all that passes a filter.
pub All-of_keep {ℓ κ} :
    {A : Type ℓ} (Q : A → Type κ) (p : A → Bool) (xs : List A)
    → All Q (keep p xs)
    → All (λ x. (p x ≡ false) ⊎ Q x) xs
All-of_keep Q p [] h = tt
All-of_keep Q p (x ∷ xs) h = elim (Bool-cases (p x)) [
  | inl e ↦
      let g : All Q (x ∷ keep p xs) =
        subst (λ (b : Bool). All Q (if b then x ∷ keep p xs else keep p xs)) e h in
      (inr g.0, All-of_keep Q p xs g.1)
  | inr e ↦ (
    inl e,
    All-of_keep Q p xs (subst (λ (b : Bool). All Q (if b then x ∷ keep p xs else keep p xs)) e h),
  )
]

pub All-zip {ℓ κ μ} :
    {A : Type ℓ} (P : A → Type κ) (Q : A → Type μ) (xs : List A)
    → All P xs
    → All Q xs
    → All (λ x. P x × Q x) xs
All-zip P Q [] h g = tt
All-zip P Q (x ∷ xs) h g = ((h.0, g.0), All-zip P Q xs h.1 g.1)

pub get_elem-nil {ℓ} : {A : Type ℓ} (f : A) → ◌≡◌ {A = Option A} none (some f) → ⊥
get_elem-nil f g = cc

pub get_elem-All {ℓ κ} :
    {A : Type ℓ} (P : A → Type κ) (ys : List A) (n : ℕ) (f : A)
    → All P ys
    → get_elem? ys n ≡ some f
    → P f
get_elem-All P [] n f h g = elim (get_elem-nil f g) [ ]
get_elem-All P (y ∷ ys) zero f h g = subst P (some_inj g) h.0
get_elem-All P (y ∷ ys) (suc n) f h g = get_elem-All P ys n f h.1 g

-- Exactly the places below the length hold an element.
pub get_elem_iff {ℓ} :
    {A : Type ℓ} (ys : List A) (n : ℕ) → ((f : A) × (get_elem? ys n ≡ some f)) ↔ (suc n ≤ length ys)
get_elem_iff [] n = (λ h. elim (get_elem-nil h.0 h.1) [ ], λ h. elim (absurd_le n h) [ ])
  where
    absurd_le : (n : ℕ) → suc n ≤ 0 → ⊥
    absurd_le n h = omega (arith, h)
get_elem_iff (y ∷ ys) zero = (λ h. omega arith, λ h. (y, refl))
get_elem_iff (y ∷ ys) (suc n) =
    let rest = get_elem_iff ys n in (λ h. omega (arith, rest.0 h), λ h. rest.1 (omega (arith, h)))
