-- ===== src/Extradata/Tests.antt =====
-- pkg/lib/av/extradata: a small stream and a small code, and the theorems at inputs that meet their
-- hypotheses.
use tvproxy.Base.{ℕ, zero, suc, ◌+◌, ◌-◌, ◌^◌, ◌<◌, ◌≡◌, ◌≢◌, refl, [], ◌∷◌, none, some, ok, arith}
use tvproxy.Extradata.{
  Bytes, byte_at, split_from, split_nal_units, trim_trailing_zeros, put_units, of_type,
  h264_to_avcc,
}
use tvproxy.Extradata.Bits.{
  BitReader, bit_at, bits_from, read_ue, read_bits, read_se, down, count_zeros,
}
use tvproxy.Extradata.Golomb.{Zeros, read_ue-Zeros}
use tvproxy.Extradata.Units.{IsSplit, split_from-IsSplit}
use tvproxy.Extradata.Avcc.{Fits, get_avcc, h264_to_avcc-get}

abbrev stream : Bytes
stream = 0 ∷ 0 ∷ 0 ∷ 1 ∷ 103 ∷ 100 ∷ 0 ∷ 40 ∷ 0 ∷ 0 ∷ 1 ∷ 104 ∷ 238 ∷ []

stream_units : split_nal_units stream ≡ (103 ∷ 100 ∷ 0 ∷ 40 ∷ []) ∷ (104 ∷ 238 ∷ []) ∷ []
unfolding split_nal_units split_from byte_at trim_trailing_zeros
stream_units = refl

abbrev stream_avcc : Bytes
stream_avcc = 1 ∷ 100 ∷ 0 ∷ 40 ∷ 255 ∷ 225 ∷ 0 ∷ 4 ∷ 103 ∷ 100 ∷ 0 ∷ 40 ∷ 1 ∷ 0 ∷ 2 ∷ 104 ∷ 238 ∷ []

stream_made : h264_to_avcc stream ≡ ok stream_avcc
unfolding h264_to_avcc split_nal_units split_from byte_at trim_trailing_zeros put_units
stream_made = refl

stream-Fits : Fits (of_type 7 (split_nal_units stream)) (of_type 8 (split_nal_units stream))
unfolding split_nal_units split_from byte_at trim_trailing_zeros
stream-Fits = (omega arith, omega arith, (omega arith, tt), (omega arith, tt))

stream_begins : byte_at stream 0 ≢ 1
unfolding byte_at
stream_begins = omega arith

h264_to_avcc-get_example :
    get_avcc stream_avcc
    ≡ some (of_type 7 (split_nal_units stream), of_type 8 (split_nal_units stream))
h264_to_avcc-get_example =
    h264_to_avcc-get stream stream_avcc stream_made (omega arith) stream_begins stream-Fits

split_from-IsSplit_example : IsSplit (split_from 13 stream 0 none [])
split_from-IsSplit_example = split_from-IsSplit 13 stream 0 none [] (omega arith) tt

-- The bits 00101 stand for 4.
abbrev code : BitReader
code = record { bytes = 40 ∷ []; pos = 0 }

code_read : (read_ue code).1 ≡ ok 4
unfolding read_ue count_zeros read_bits bits_from bit_at byte_at
code_read = refl

code_signed : (read_se code).1 ≡ ok (down 2)
unfolding read_se read_ue count_zeros read_bits bits_from bit_at byte_at
code_signed = refl

two_zeros : (i : ℕ) → i < 2 → bit_at code.bytes (code.pos + i) ≡ 0
unfolding bit_at byte_at
two_zeros zero h = refl
two_zeros (suc zero) h = refl
two_zeros (suc (suc i)) h = elim (too_large i h) [ ]
  where
    too_large : (i : ℕ) → suc (suc i) < 2 → ⊥
    too_large i h = omega (arith, h)

code-Zeros : Zeros 2 code
unfolding bit_at byte_at
code-Zeros = record { zeros = two_zeros; one = refl; inside = omega arith }

read_ue-Zeros_example :
    read_ue code ≡ (record code { pos = 5 }, ok (2 ^ 2 - 1 + bits_from code.bytes 3 2 0))
read_ue-Zeros_example = read_ue-Zeros 2 code (omega arith) code-Zeros (omega arith)
