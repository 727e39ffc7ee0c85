-- ===== src/Extradata/Bits.antt =====
-- pkg/lib/av/extradata/bitreader.go: bits and Exp-Golomb codes from a byte slice.
use tvproxy.Base.{
  ℕ, zero, suc, ◌+◌, ◌-◌, ◌*◌, ◌/◌, ◌%◌, ◌^◌, Result, ok, err, nat_eq, ltb, if◌then◌else◌, length,
}
use tvproxy.Extradata.{Bytes, byte_at}

pub data BitError : Type 0 where
  invalid_bit_count : ℕ → BitError
  past_end : BitError
  too_many_zeros : BitError

-- `pos` counts bits.
pub record BitReader : Type 0 where
  pub bytes : Bytes
  pub pos : ℕ

-- `(data[pos >> 3] >> (7 - pos&7)) & 1`.
unfoldable pub bit_at : Bytes → ℕ → ℕ
bit_at bytes pos = (byte_at bytes (pos / 8) / 2 ^ (7 - pos % 8)) % 2

-- The loop of `readBits`; `val` is a uint32.
unfoldable pub bits_from : Bytes → ℕ → ℕ → ℕ → ℕ
bits_from bytes pos zero val = val
bits_from bytes pos (suc n) val =
    bits_from bytes (suc pos) n ((val * 2 + bit_at bytes pos) % 4_294_967_296)

unfoldable pub read_bits : ℕ → BitReader → BitReader × Result BitError ℕ
read_bits n r =
    if ltb 32 n
    then (r, err (invalid_bit_count n))
    else if nat_eq n 0
    then (r, ok 0)
    else if ltb (length r.bytes * 8) (r.pos + n)
    then (r, err past_end)
    else (record r { pos = r.pos + n }, ok (bits_from r.bytes r.pos n 0))

-- The loop of `readUE` that counts the leading zeros: `left` more of them may come.
unfoldable pub count_zeros : ℕ → ℕ → BitReader → BitReader × Result BitError ℕ
count_zeros zero seen r =
    let b = read_bits 1 r in
    elim (b.1) [
      | err e ↦ (b.0, err e)
      | ok bit ↦ if nat_eq bit 1 then (b.0, ok seen) else (b.0, err too_many_zeros)
    ]
count_zeros (suc left) seen r =
    let b = read_bits 1 r in
    let rest = count_zeros left (suc seen) b.0 in
    elim (b.1) [ err e ↦ (b.0, err e) | ok bit ↦ if nat_eq bit 1 then (b.0, ok seen) else rest ]

-- `(1 << zeros) - 1 + suffix` in a uint32.
unfoldable pub read_ue : BitReader → BitReader × Result BitError ℕ
read_ue r =
    let counted = count_zeros 31 0 r in
    elim (counted.1) [
      | err e ↦ (counted.0, err e)
      | ok k ↦
          if nat_eq k 0
          then (counted.0, ok 0)
          else let suffix = read_bits k counted.0 in
            elim (suffix.1) [
              | err e ↦ (suffix.0, err e)
              | ok v ↦ (suffix.0, ok ((2 ^ k - 1 + v) % 4_294_967_296))
            ]
    ]

-- A signed value: `up n` is n and `down n` is -n.
pub data Signed : Type 0 where
  up down : ℕ → Signed

unfoldable pub read_se : BitReader → BitReader × Result BitError Signed
read_se r =
    let read = read_ue r in
    elim (read.1) [
      | err e ↦ (read.0, err e)
      | ok k ↦ (
        read.0,
        ok (if nat_eq (k % 2) 0 then down (k / 2) else up (((k + 1) % 4_294_967_296) / 2)),
      )
    ]

unfoldable pub skip : ℕ → BitReader → BitReader
skip n r = record r { pos = r.pos + n }
