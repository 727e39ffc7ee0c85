-- ===== src/Extradata/Units.antt =====
-- pkg/lib/av/extradata/extradata.go: the units that a byte stream is split into.
use tvproxy.Base.{
  ℕ, zero, suc, ◌+◌, ◌≤◌, ◌<◌, ◌≡◌, inl, inr, List, [], ◌∷◌, Option, none, some, arith, false, ltb,
  length, All, All-append, Bool-cases, ltb→lt,
}
use tvproxy.Extradata.{Bytes, append_unit, closed, last_unit, split_from}

-- No unit is empty.
abbrev pub NoneEmpty : List Bytes → Type 0
NoneEmpty units = All (λ u. 0 < length u) units

append_unit-NoneEmpty :
    (u : Bytes) (units : List Bytes) → NoneEmpty units → NoneEmpty (append_unit u units)
append_unit-NoneEmpty u units h = elim (Bool-cases (ltb 0 (length u))) [
  | inl e ↦ rw e (All-append (λ u. 0 < length u) units (u ∷ []) h (ltb→lt 0 (length u) e, tt))
  | inr e ↦ rw e h
]

closed-NoneEmpty :
    (bytes : Bytes) (start : Option ℕ) (i : ℕ) (units : List Bytes)
    → NoneEmpty units
    → NoneEmpty (closed bytes start i units)
closed-NoneEmpty bytes none i units h = h
closed-NoneEmpty bytes (some start) i units h = append_unit-NoneEmpty _ units h

last_unit-NoneEmpty :
    (bytes : Bytes) (start : Option ℕ) (units : List Bytes)
    → NoneEmpty units
    → NoneEmpty (last_unit bytes start units)
last_unit-NoneEmpty bytes none units h = h
last_unit-NoneEmpty bytes (some start) units h = elim (Bool-cases (ltb start (length bytes))) [
  | inl e ↦ rw e (append_unit-NoneEmpty _ units h)
  | inr e ↦ rw e h
]

-- What the loop gives: units, none of them empty.
abbrev pub IsSplit : Option (List Bytes) → Type 0
IsSplit none = ⊥
IsSplit (some units) = NoneEmpty units

-- From any position, fuel for the bytes that are left takes the loop to the end of the data, and it
-- gives no empty unit if it had none.
pub split_from-IsSplit :
    (fuel : ℕ) (bytes : Bytes) (i : ℕ) (start : Option ℕ) (units : List Bytes)
    → length bytes ≤ i + fuel
    → NoneEmpty units
    → IsSplit (split_from fuel bytes i start units)
unfolding split_from
split_from-IsSplit zero bytes i start units f h =
    let over : ltb i (length bytes) ≡ false = ground (arith, f) in
    rw over (last_unit-NoneEmpty bytes start units h)
split_from-IsSplit (suc fuel) bytes i start units f h = ground (
  arith,
  last_unit-NoneEmpty bytes start units h,
  split_from-IsSplit fuel bytes (i + 4) (some (i + 4)) (closed bytes start i units)
      (omega (arith, f)) (closed-NoneEmpty bytes start i units h),
  split_from-IsSplit fuel bytes (i + 3) (some (i + 3)) (closed bytes start i units)
      (omega (arith, f)) (closed-NoneEmpty bytes start i units h),
  split_from-IsSplit fuel bytes (i + 1) start units (omega (arith, f)) h,
)
