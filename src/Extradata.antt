-- ===== src/Extradata.antt =====
-- pkg/lib/av/extradata: the codec headers of H.264, from Annex B units to an avcC record. A byte
-- slice is a list of numbers.
pub mod Bits
pub mod Golomb
pub mod Units
pub mod Avcc
mod Tests
use tvproxy.Base.{
  ℕ, zero, suc, ◌+◌, ◌-◌, ◌*◌, ◌/◌, ◌%◌, ◌^◌, ◌<◌, String, Bool, true, false, not, ◌&&◌, ◌==◌, List,
  [], ◌∷◌, ◌++◌, Option, none, some, Result, ok, err, nat_eq, ltb, if◌then◌else◌, keep, length,
  take, drop,
}

pub data ExtradataError : Type 0 where
  no_nal_units no_sps no_pps : ExtradataError
  sps_too_short : ℕ → ExtradataError

abbrev pub Bytes : Type 0
Bytes = List ℕ

-- `data[i]`, and 0 out of range, where the source never reads.
unfoldable pub byte_at : Bytes → ℕ → ℕ
byte_at [] i = 0
byte_at (b ∷ bs) zero = b
byte_at (b ∷ bs) (suc i) = byte_at bs i

abbrev slice : Bytes → ℕ → ℕ → Bytes
slice bytes from to = take (to - from) (drop from bytes)

-- `trimTrailingZeros`: a byte is kept if a byte that is not zero stands at or behind it.
unfoldable pub trim_trailing_zeros : Bytes → Bytes
trim_trailing_zeros [] = []
trim_trailing_zeros (b ∷ bs) =
    let rest = trim_trailing_zeros bs in
    if nat_eq (length rest) 0 && nat_eq b 0 then [] else b ∷ rest

-- A start code of four bytes at `i`, and one of three.
abbrev pub long_code : Bytes → ℕ → Bool
long_code bytes i =
    ltb (i + 3) (length bytes)
    && nat_eq (byte_at bytes i) 0
    && nat_eq (byte_at bytes (i + 1)) 0
    && nat_eq (byte_at bytes (i + 2)) 0
    && nat_eq (byte_at bytes (i + 3)) 1

abbrev pub short_code : Bytes → ℕ → Bool
short_code bytes i =
    ltb (i + 2) (length bytes)
    && nat_eq (byte_at bytes i) 0
    && nat_eq (byte_at bytes (i + 1)) 0
    && nat_eq (byte_at bytes (i + 2)) 1

abbrev pub append_unit : Bytes → List Bytes → List Bytes
append_unit unit units = if ltb 0 (length unit) then units ++ unit ∷ [] else units

-- The unit that ends at a start code, if one has begun.
abbrev pub closed : Bytes → Option ℕ → ℕ → List Bytes → List Bytes
closed bytes none i units = units
closed bytes (some start) i units = append_unit (trim_trailing_zeros (slice bytes start i)) units

-- The unit that the data end in.
abbrev pub last_unit : Bytes → Option ℕ → List Bytes → List Bytes
last_unit bytes none units = units
last_unit bytes (some start) units =
    if ltb start (length bytes) then append_unit (slice bytes start (length bytes)) units else units

-- The loop of `SplitNALUnits` at position `i`, on fuel; `none` if it runs out before the data.
unfoldable pub split_from : ℕ → Bytes → ℕ → Option ℕ → List Bytes → Option (List Bytes)
split_from zero bytes i start units =
    if ltb i (length bytes) then none else some (last_unit bytes start units)
split_from (suc fuel) bytes i start units = elim (ltb i (length bytes)) [
  | false ↦ some (last_unit bytes start units)
  | true ↦ elim (long_code bytes i) [
    | true ↦ split_from fuel bytes (i + 4) (some (i + 4)) (closed bytes start i units)
    | false ↦ elim (short_code bytes i) [
      | true ↦ split_from fuel bytes (i + 3) (some (i + 3)) (closed bytes start i units)
      | false ↦ split_from fuel bytes (i + 1) start units
    ]
  ]
]

-- The position grows at each turn of the loop, so the length of the data is fuel enough, and the
-- loop never runs out of it.
unfoldable pub split_nal_units : Bytes → List Bytes
split_nal_units bytes = elim (split_from (length bytes) bytes 0 none []) [
  | none ↦ []
  | some units ↦ units
]

-- `putU16BE(_, uint16(v))`.
abbrev pub put_u16 : ℕ → Bytes
put_u16 v = (v / 256) % 256 ∷ v % 256 ∷ []

-- The loop that writes each unit behind its length.
unfoldable pub put_units : List Bytes → Bytes
put_units [] = []
put_units (u ∷ us) = put_u16 (length u) ++ u ++ put_units us

abbrev pub nal_type : Bytes → ℕ
nal_type u = byte_at u 0 % 32

-- The units of one type, empty ones left out.
abbrev pub of_type : ℕ → List Bytes → List Bytes
of_type type units = keep (λ u. not (nat_eq (length u) 0) && nat_eq (nal_type u) type) units

-- The record: the profile, its compatibility and the level stand in the first sequence parameter set.
-- `0xE0 | n&0x1F` is a sum, the two having no bit in common.
abbrev pub avcc_of : Bytes → List Bytes → List Bytes → Bytes
avcc_of sps sps_list pps_list =
    (1 ∷ byte_at sps 1 ∷ byte_at sps 2 ∷ byte_at sps 3 ∷ 255 ∷ (224 + length sps_list % 32) ∷ [])
    ++ put_units sps_list
    ++ ((length pps_list % 256) ∷ put_units pps_list)

unfoldable pub avcc_from : List Bytes → List Bytes → Result ExtradataError Bytes
avcc_from [] pps_list = err no_sps
avcc_from (sps ∷ more) [] = err no_pps
avcc_from (sps ∷ more) (pps ∷ others) =
    if ltb (length sps) 4
    then err (sps_too_short (length sps))
    else ok (avcc_of sps (sps ∷ more) (pps ∷ others))

unfoldable pub h264_to_avcc : Bytes → Result ExtradataError Bytes
unfolding avcc_from
h264_to_avcc bytes =
    if nat_eq (length bytes) 0
    then ok []
    else if nat_eq (byte_at bytes 0) 1
    then ok bytes
    else let units = split_nal_units bytes in
      if nat_eq (length units) 0
      then err no_nal_units
      else avcc_from (of_type 7 units) (of_type 8 units)
