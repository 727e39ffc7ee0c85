-- ===== src/Base/Text.antt =====
-- Texts: lower case, order, prefixes. strings.ToLower is written out on the ASCII letters; every
-- other character is left as it is.
use Prim.Native.Char.{Char, char, IsScalar, code}
use Prim.Native.Nat.{ℕ, ◌+◌, ◌<◌, compare, Ordering}
use Prim.Native.String
use Prim.Native.String.{String}
use mathlib.Core.Bool.{Bool, true, false, ◌&&◌, ◌||◌}
use mathlib.Core.Path.{◌≡◌, refl}
use tvproxy.Base.Tests.{if◌then◌else◌, nat_eq}
use mathlib.Core.Logic.{dite}
use native.Mathlib.Decide.{dec_lt}
use native.Mathlib.Omega.{arith}
use text.Mathlib.Text.{◌==◌}

pub low_scalar : (n : ℕ) → n < 55296 → IsScalar n
low_scalar n h = let e : compare n 55296 ≡ Ordering.lt = ground arith in rw e tt

lower_char : Char → Char
lower_char (char n p) =
    dite (dec_lt 64 n)
      (λ _.
        dite (dec_lt n 91) (λ h. char (n + 32) (low_scalar (n + 32) (omega arith))) (λ _. char n p))
      (λ _. char n p)

unfoldable pub lower : String → String
unfolding lower_char dec_lt low_scalar
lower String.[] = ""
lower (String.◌∷◌ c s) = String.◌∷◌ (lower_char c) (lower s)

-- The order of Go's strings, which is that of their bytes and so of their code points.
abbrev pub text_ltb : String → String → Bool
text_ltb a b = elim (String.compare a b) [ Ordering.lt ↦ true | _ ↦ false ]

lower_test : lower "H.265 Main" ≡ "h.265 main"
unfolding lower
lower_test = refl

-- strings.HasPrefix and strings.TrimPrefix, character by character.
unfoldable pub has_prefix : String → String → Bool
has_prefix s String.[] = true
has_prefix String.[] (String.◌∷◌ d p) = false
has_prefix (String.◌∷◌ c s) (String.◌∷◌ d p) = nat_eq (code c) (code d) && has_prefix s p

-- strings.Contains.
unfoldable pub contains : String → String → Bool
unfolding has_prefix
contains String.[] p = has_prefix "" p
contains (String.◌∷◌ c s) p = has_prefix (String.◌∷◌ c s) p || contains s p

-- strings.HasSuffix.
unfoldable pub has_suffix : String → String → Bool
has_suffix String.[] p = "" == p
has_suffix (String.◌∷◌ c s) p = String.◌∷◌ c s == p || has_suffix s p

drop_prefix : String → String → String
drop_prefix s String.[] = s
drop_prefix String.[] (String.◌∷◌ d p) = ""
drop_prefix (String.◌∷◌ c s) (String.◌∷◌ d p) = drop_prefix s p

unfoldable pub trim_prefix : String → String → String
unfolding has_prefix drop_prefix
trim_prefix s p = if has_prefix s p then drop_prefix s p else s

lower_char_stays : (n : ℕ) (p : IsScalar n) → ¬ (64 < n × n < 91) → lower_char (char n p) ≡ char n p
unfolding lower_char
lower_char_stays n p h = ground arith

lower_char_idem : (c : Char) → lower_char (lower_char c) ≡ lower_char c
unfolding lower_char
lower_char_idem (char n p) = ground arith

pub lower_idem : (s : String) → lower (lower s) ≡ lower s
unfolding lower
lower_idem String.[] = refl
lower_idem (String.◌∷◌ c s) = cc (lower_char_idem c, lower_idem s)
