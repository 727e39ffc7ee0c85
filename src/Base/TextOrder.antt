-- ===== src/Base/TextOrder.antt =====
-- The order of texts by the code points, first difference first, is a strict weak order.
use Prim.Native.Char.{Char, code}
use Prim.Native.String
use Prim.Native.String.{String, [], ◌∷◌}
use mathlib.Core.Path.{◌≡◌, refl}
use mathlib.Core.Bool.{true, false}
use native.Mathlib.Omega.{arith}
use tvproxy.Base.Tests.{ltb, nat_eq, if◌then◌else◌}
use tvproxy.Base.Text.{text_ltb}

text_ltb-nil : (s : String) → text_ltb s [] ≡ false
text_ltb-nil [] = refl
text_ltb-nil (c ∷ s) = rw (String.compare.cons-nil c s, text_ltb) refl

text_ltb-nil_cons : (c : Char) (s : String) → text_ltb [] (c ∷ s) ≡ true
text_ltb-nil_cons c s = rw (String.compare.nil-cons c s, text_ltb) refl

text_ltb-cons :
    (c d : Char) (s t : String)
    → text_ltb (c ∷ s) (d ∷ t) ≡ (
        if ltb (code c) (code d)
        then true
        else if nat_eq (code c) (code d)
        then text_ltb s t
        else false)
text_ltb-cons c d s t = rw (String.compare.cons-cons c d s t, text_ltb) (ground arith)

pub text_ltb-asym : (s t : String) → text_ltb s t ≡ true → text_ltb t s ≡ false
text_ltb-asym s [] h = ground (arith, text_ltb-nil s, h)
text_ltb-asym [] (d ∷ t) h = text_ltb-nil (d ∷ t)
text_ltb-asym (c ∷ s) (d ∷ t) h =
    ground (arith, h, text_ltb-cons c d s t, text_ltb-cons d c t s, text_ltb-asym s t)

pub text_ltb_trans :
    (a b c : String) → text_ltb a b ≡ false → text_ltb b c ≡ false → text_ltb a c ≡ false
text_ltb_trans a b [] h g = text_ltb-nil a
text_ltb_trans [] [] (z ∷ c) h g = g
text_ltb_trans [] (y ∷ b) (z ∷ c) h g = ground (arith, h, text_ltb-nil_cons y b)
text_ltb_trans (x ∷ a) [] (z ∷ c) h g = ground (arith, g, text_ltb-nil_cons z c)
text_ltb_trans (x ∷ a) (y ∷ b) (z ∷ c) h g = ground (
  arith,
  h,
  g,
  text_ltb-cons x y a b,
  text_ltb-cons y z b c,
  text_ltb-cons x z a c,
  text_ltb_trans a b c,
)
