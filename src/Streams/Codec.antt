-- ===== src/Streams/Codec.antt =====
-- Values as runs of numbers that tell where they end, for the tests.
pub mod Marshal
use Prim.Native.Char.{Char, char, IsScalar, code, nul}
use Prim.Native.Nat.{ℕ, zero, suc, ◌<◌, ◌≤◌, compare, Ordering}
use Prim.Native.String as Text
use Prim.Native.String.{String}
use mathlib.Core.Path.{◌≡◌, refl}
use mathlib.Core.Bool.{Bool, true, false}
use mathlib.Core.List.{List, [], ◌∷◌, ◌++◌}
use mathlib.Core.Option.{Option, none, some}
use mathlib.Core.Logic.{dite, ◌⊎◌, inl, inr}
use native.Mathlib.Decide.{dec_lt}
use native.Mathlib.Omega.{arith}
use text.Mathlib.TextEquality.{codes_equal}
use tvproxy.Base.Integers.{ℤ, pos, negsuc}
use tvproxy.Base.{length, append_assoc, append_nil}
use tvproxy.Base.Text.{low_scalar}
use tvproxy.Extradata.{Bytes}
use tvproxy.Streams.{Stream, StreamTrack}

-- A value and the numbers behind it.
record Codec (A : Type 0) : Type 0 where
  pub write : A → Bytes
  pub read : Bytes → Option (A × Bytes)
  pub read-write : (a : A) (rest : Bytes) → read (write a ++ rest) ≡ some (a, rest)

read_number : Bytes → Option (ℕ × Bytes)
read_number [] = none
read_number (n ∷ rest) = some (n, rest)

number : Codec ℕ
unfolding read_number
number = record { write = λ n. n ∷ []; read = read_number; read-write = λ n rest. refl }

high_scalar : (n : ℕ) → 57343 < n → n < 1114112 → IsScalar n
high_scalar n h g =
    let e : compare 57343 n ≡ Ordering.lt = ground (arith, h) in
    let f : compare n 1114112 ≡ Ordering.lt = ground (arith, g) in
    let k : compare n 55296 ≡ Ordering.gt = ground (arith, h) in rw (k, e, f) tt

char_of : ℕ → Char
char_of n =
    dite (dec_lt n 55296) (λ h. char n (low_scalar n h))
      (λ _.
        dite (dec_lt 57343 n)
          (λ h. dite (dec_lt n 1114112) (λ g. char n (high_scalar n h g)) (λ _. nul)) (λ _. nul))

compare_not_lt : (m n : ℕ) → n ≤ m → (compare m n ≡ Ordering.eq) ⊎ (compare m n ≡ Ordering.gt)
compare_not_lt m n h = elim (dec_lt n m) [
  | yes p ↦ inr (ground (arith, p))
  | no p ↦ inl (ground (arith, p, h))
]

surrogate : (n : ℕ) → IsScalar n → 55296 ≤ n → n ≤ 57343 → ⊥
surrogate n p h g = elim (compare_not_lt n 55296 h) [
  | inl a ↦ elim (compare_not_lt 57343 n g) [ inl b ↦ rw (a, b) at p | inr b ↦ rw (a, b) at p ]
  | inr a ↦ elim (compare_not_lt 57343 n g) [ inl b ↦ rw (a, b) at p | inr b ↦ rw (a, b) at p ]
]

too_large : (n : ℕ) → IsScalar n → 1114112 ≤ n → ⊥
too_large n p h =
    let a : compare n 55296 ≡ Ordering.gt = ground (arith, h) in
    let b : compare 57343 n ≡ Ordering.lt = ground (arith, h) in
    elim (compare_not_lt n 1114112 h) [ inl c ↦ rw (a, b, c) at p | inr c ↦ rw (a, b, c) at p ]

code-char_of : (c : Char) → code (char_of (code c)) ≡ code c
unfolding char_of
code-char_of (char n p) = ground (arith, surrogate n p, too_large n p)

char_of-code : (c : Char) → char_of (code c) ≡ c
char_of-code c = codes_equal (char_of (code c)) c (let e = code-char_of c in ground (arith, e))

read_text : ℕ → Bytes → Option (String × Bytes)
read_text zero rest = some ("", rest)
read_text (suc n) [] = none
read_text (suc n) (c ∷ bytes) = elim (read_text n bytes) [
  | none ↦ none
  | some (s, rest) ↦ some (Text.◌∷◌ (char_of c) s, rest)
]

codes : String → Bytes
codes Text.[] = []
codes (Text.◌∷◌ c s) = code c ∷ codes s

read_text-codes :
    (s : String) (rest : Bytes) → read_text (length (codes s)) (codes s ++ rest) ≡ some (s, rest)
unfolding read_text codes
read_text-codes Text.[] rest = refl
read_text-codes (Text.◌∷◌ c s) rest = rw (read_text, read_text-codes s rest, char_of-code c) refl

read_sized : Bytes → Option (String × Bytes)
read_sized [] = none
read_sized (n ∷ bytes) = read_text n bytes

characters : Codec String
unfolding read_sized
characters = record {
  write = λ s. length (codes s) ∷ codes s;
  read = read_sized;
  read-write = λ s rest. read_text-codes s rest;
}

infixr 6 ◌⊗◌
read_second : {A B : Type 0} → Codec B → Option (A × Bytes) → Option ((A × B) × Bytes)
read_second d none = none
read_second d (some (a, rest)) = elim (d.read rest) [
  | none ↦ none
  | some (b, more) ↦ some ((a, b), more)
]

both_law :
    {A B : Type 0} (c : Codec A) (d : Codec B) (p : A × B) (rest : Bytes)
    → read_second d (c.read ((c.write p.0 ++ d.write p.1) ++ rest)) ≡ some (p, rest)
unfolding read_second
both_law c d p rest =
    rw
      (
        append_assoc (c.write p.0) (d.write p.1) rest,
        c.read-write p.0 (d.write p.1 ++ rest),
        read_second,
        d.read-write p.1 rest,
      )
      refl

◌⊗◌ : {A B : Type 0} → Codec A → Codec B → Codec (A × B)
c ⊗ d = record {
  write = λ p. c.write p.0 ++ d.write p.1;
  read = λ bytes. read_second d (c.read bytes);
  read-write = λ p rest. both_law c d p rest;
}

read_into : {A B : Type 0} → (A → B) → Option (A × Bytes) → Option (B × Bytes)
read_into f none = none
read_into f (some (a, rest)) = some (f a, rest)

into_law :
    {A B : Type 0} (c : Codec A) (f : A → B) (g : B → A)
    → ((b : B) → f (g b) ≡ b)
    → (b : B) (rest : Bytes) → read_into f (c.read (c.write (g b) ++ rest)) ≡ some (b, rest)
unfolding read_into
into_law c f g same b rest = rw (c.read-write (g b) rest, same b) refl

-- A codec by way of another type.
by_way : {A B : Type 0} → Codec A → (f : A → B) → (g : B → A) → ((b : B) → f (g b) ≡ b) → Codec B
by_way c f g same = record {
  write = λ b. c.write (g b);
  read = λ bytes. read_into f (c.read bytes);
  read-write = λ b rest. into_law c f g same b rest;
}

bit : Bool → ℕ
bit true = 1
bit false = 0

unbit : ℕ → Bool
unbit zero = false
unbit (suc n) = true

unbit-bit : (b : Bool) → unbit (bit b) ≡ b
unfolding bit unbit
unbit-bit true = refl
unbit-bit false = refl

flag : Codec Bool
flag = by_way number unbit bit unbit-bit

sign : ℤ → Bool × ℕ
sign (pos n) = (true, n)
sign (negsuc n) = (false, n)

unsign : Bool × ℕ → ℤ
unsign (true, n) = pos n
unsign (false, n) = negsuc n

unsign-sign : (z : ℤ) → unsign (sign z) ≡ z
unfolding sign unsign
unsign-sign (pos n) = refl
unsign-sign (negsuc n) = refl

integer : Codec ℤ
integer = by_way (flag ⊗ number) unsign sign unsign-sign

read_many : {A : Type 0} → Codec A → ℕ → Bytes → Option (List A × Bytes)
read_many c zero bytes = some ([], bytes)
read_many c (suc n) bytes = elim (c.read bytes) [
  | none ↦ none
  | some (a, rest) ↦ elim (read_many c n rest) [
    | none ↦ none
    | some (xs, more) ↦ some (a ∷ xs, more)
  ]
]

write_many : {A : Type 0} → Codec A → List A → Bytes
write_many c [] = []
write_many c (a ∷ xs) = c.write a ++ write_many c xs

many_law :
    {A : Type 0} (c : Codec A) (xs : List A) (rest : Bytes)
    → read_many c (length xs) (write_many c xs ++ rest) ≡ some (xs, rest)
unfolding read_many write_many
many_law c [] rest = refl
many_law c (a ∷ xs) rest =
    rw
      (
        read_many,
        append_assoc (c.write a) (write_many c xs) rest,
        c.read-write a (write_many c xs ++ rest),
        many_law c xs rest,
      )
      refl

read_counted : {A : Type 0} → Codec A → Bytes → Option (List A × Bytes)
read_counted c [] = none
read_counted c (n ∷ bytes) = read_many c n bytes

many : {A : Type 0} → Codec A → Codec (List A)
unfolding read_counted
many c = record {
  write = λ xs. length xs ∷ write_many c xs;
  read = read_counted c;
  read-write = λ xs rest. many_law c xs rest;
}
