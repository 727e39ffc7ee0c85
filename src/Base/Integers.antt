-- ===== src/Base/Integers.antt =====
-- Go's `int` where the source compares or negates: the integers over the native numbers.
use Prim.Native.Nat.{ℕ}
use mathlib.Core.Bool.{Bool, true, false}
use mathlib.Core.Path.{◌≡◌, refl}
use native.Mathlib.Omega.{arith}
use tvproxy.Base.Tests.{ltb, nat_eq, if◌then◌else◌}

-- `negsuc n` is `-(n + 1)`.
pub data ℤ : Type 0 where
  pos negsuc : ℕ → ℤ

abbrev pub int_ltb : ℤ → ℤ → Bool
int_ltb (pos m) (pos n) = ltb m n
int_ltb (pos m) (negsuc n) = false
int_ltb (negsuc m) (pos n) = true
int_ltb (negsuc m) (negsuc n) = ltb n m

abbrev pub int_eq : ℤ → ℤ → Bool
int_eq (pos m) (pos n) = nat_eq m n
int_eq (pos m) (negsuc n) = false
int_eq (negsuc m) (pos n) = false
int_eq (negsuc m) (negsuc n) = nat_eq m n

-- The first order, then the second where the first finds no difference.
abbrev pub int_then : ℤ → ℤ → Bool → Bool
int_then a b less = if int_eq a b then less else int_ltb a b

pub int_then-asym :
    (a b : ℤ) (x y : Bool) → (x ≡ true → y ≡ false) → int_then a b x ≡ true → int_then b a y ≡ false
int_then-asym (pos m) (pos n) x y f h = ground (arith, f, h)
int_then-asym (pos m) (negsuc n) x y f h = ground (arith, h)
int_then-asym (negsuc m) (pos n) x y f h = refl
int_then-asym (negsuc m) (negsuc n) x y f h = ground (arith, f, h)

pub int_then_trans :
    (a b c : ℤ) (x y z : Bool)
    → (x ≡ false → y ≡ false → z ≡ false)
    → int_then a b x ≡ false
    → int_then b c y ≡ false
    → int_then a c z ≡ false
int_then_trans (pos a) (pos b) (pos c) x y z f h g = ground (arith, f, h, g)
int_then_trans (pos a) b (negsuc c) x y z f h g = refl
int_then_trans (pos a) (negsuc b) (pos c) x y z f h g = ground (arith, h, g)
int_then_trans (negsuc a) (pos b) c x y z f h g = ground (arith, h, g)
int_then_trans (negsuc a) (negsuc b) (pos c) x y z f h g = ground (arith, h, g)
int_then_trans (negsuc a) (negsuc b) (negsuc c) x y z f h g = ground (arith, f, h, g)
