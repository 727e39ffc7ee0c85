-- ===== src/Extradata/Golomb.antt =====
-- pkg/lib/av/extradata/bitreader.go: what an Exp-Golomb code is read as.
use tvproxy.Base.{
  ℕ, zero, suc, ◌+◌, ◌-◌, ◌*◌, ◌%◌, ◌^◌, ◌≤◌, ◌<◌, ◌≡◌, refl, ap, ◌⊎◌, inl, inr, ◌∙◌, Result, ok,
  arith, length,
}
use tvproxy.Extradata.{Bytes}
use tvproxy.Extradata.Bits.{BitError, BitReader, bit_at, bits_from, read_bits, count_zeros, read_ue}

bit_at-lt : (bytes : Bytes) (pos : ℕ) → bit_at bytes pos < 2
unfolding bit_at
bit_at-lt bytes pos = omega arith

read_bits-one :
    (r : BitReader)
    → r.pos + 1 ≤ length r.bytes * 8
    → read_bits 1 r ≡ (record r { pos = r.pos + 1 }, ok (bit_at r.bytes r.pos))
unfolding read_bits bits_from
read_bits-one r h = ground (arith, h, bit_at-lt r.bytes r.pos)

-- The reader `r` has `k` zeros at its position, and then a one, all inside the data.
pub record Zeros (k : ℕ) (r : BitReader) : Type 0 where
  pub zeros : (i : ℕ) → i < k → bit_at r.bytes (r.pos + i) ≡ 0
  pub one : bit_at r.bytes (r.pos + k) ≡ 1
  pub inside : r.pos + k + 1 ≤ length r.bytes * 8

after_one :
    (left seen : ℕ) (r : BitReader)
    → bit_at r.bytes r.pos ≡ 1
    → r.pos + 1 ≤ length r.bytes * 8
    → count_zeros left seen r ≡ (record r { pos = r.pos + 1 }, ok seen)
unfolding count_zeros
after_one zero seen r e h = ground (arith, read_bits-one r h, e)
after_one (suc left) seen r e h = ground (arith, read_bits-one r h, e)

after_zero :
    (left seen : ℕ) (r : BitReader)
    → bit_at r.bytes r.pos ≡ 0
    → r.pos + 1 ≤ length r.bytes * 8
    → count_zeros (suc left) seen r ≡ count_zeros left (suc seen) (record r { pos = r.pos + 1 })
unfolding count_zeros
after_zero left seen r e h = ground (arith, read_bits-one r h, e)

later : (k : ℕ) (r : BitReader) → Zeros (suc k) r → Zeros k (record r { pos = r.pos + 1 })
later k r h = record {
  zeros = λ i l. ap (bit_at r.bytes) (omega arith) ∙ h.zeros (suc i) (omega (arith, l));
  one = ap (bit_at r.bytes) (omega arith) ∙ h.one;
  inside = omega (arith, h.inside);
}

absurd_le : {k : ℕ} → suc k ≤ 0 → ⊥
absurd_le l = omega (arith, l)

read_at :
    (r : BitReader) {p q a b : ℕ}
    → p ≡ q
    → a ≡ b
    → ◌≡◌ {A = BitReader × Result BitError ℕ}
        (record r { pos = p }, ok a)
        (record r { pos = q }, ok b)
read_at r e f = cc (e, f)

count_zeros-Zeros :
    (left seen k : ℕ) (r : BitReader)
    → k ≤ left
    → Zeros k r
    → count_zeros left seen r ≡ (record r { pos = r.pos + k + 1 }, ok (seen + k))
count_zeros-Zeros left seen zero r l h =
    after_one left seen r (ap (bit_at r.bytes) (omega arith) ∙ h.one) (omega (arith, h.inside))
    ∙ read_at r (omega arith) (omega arith)
count_zeros-Zeros zero seen (suc k) r l h = elim (absurd_le l) [ ]
count_zeros-Zeros (suc left) seen (suc k) r l h =
    after_zero left seen r (ap (bit_at r.bytes) (omega arith) ∙ h.zeros 0 (omega arith))
      (omega (arith, h.inside))
    ∙ count_zeros-Zeros left (suc seen) k (record r { pos = r.pos + 1 }) (omega (arith, l))
        (later k r h)
    ∙ read_at r (omega arith) (omega arith)

add_zero : (m : ℕ) → m + 0 ≡ m
add_zero m = omega arith

add_suc : (m n : ℕ) → m + suc n ≡ suc m + n
add_suc m n = omega arith

pow_suc : (m : ℕ) → 2 ^ suc m ≡ 2 * 2 ^ m
pow_suc m = omega arith

suc_out : (k d : ℕ) → k + suc d ≡ suc (k + d)
suc_out k d = omega arith

pow_grows : (k d : ℕ) → 2 ^ k ≤ 2 ^ (k + d)
pow_grows k zero = rw (add_zero k) (omega arith)
pow_grows k (suc d) = rw (suc_out k d) (omega (arith, pow_grows k d, pow_suc (k + d)))

pow_split : (k n : ℕ) → k ≤ n → n ≡ k + (n - k)
pow_split k n h = omega (arith, h)

pow_le : (k n : ℕ) → k ≤ n → 2 ^ k ≤ 2 ^ n
pow_le k n h = rw (pow_split k n h) (pow_grows k (n - k))

bits_from-lt :
    (bytes : Bytes) (pos n m val : ℕ)
    → val < 2 ^ m
    → m + n ≤ 32
    → bits_from bytes pos n val < 2 ^ (m + n)
unfolding bits_from
bits_from-lt bytes pos zero m val h l = rw (add_zero m) h
bits_from-lt bytes pos (suc n) m val h l =
    let bit = bit_at-lt bytes pos in
    rw (add_suc m n) (
      bits_from-lt bytes (suc pos) n (suc m) ((val * 2 + bit_at bytes pos) % 4_294_967_296)
        (omega (arith, h, bit, pow_suc m)) (omega (arith, l)))

zero_add : (n : ℕ) → 0 + n ≡ n
zero_add n = omega arith

-- The number that n bits spell is below 2^n.
bits-lt : (bytes : Bytes) (pos n : ℕ) → n ≤ 32 → bits_from bytes pos n 0 < 2 ^ n
bits-lt bytes pos n l =
    rw (zero_add n) at (bits_from-lt bytes pos n 0 0 (omega arith) (omega (arith, l)))

read_bits-inside :
    (n : ℕ) (r : BitReader)
    → 0 < n
    → n ≤ 32
    → r.pos + n ≤ length r.bytes * 8
    → read_bits n r ≡ (record r { pos = r.pos + n }, ok (bits_from r.bytes r.pos n 0))
unfolding read_bits
read_bits-inside n r p l h = ground (arith, p, l, h)

bits_from-none : (bytes : Bytes) (pos n : ℕ) → n ≡ 0 → bits_from bytes pos n 0 ≡ 0
unfolding bits_from
bits_from-none bytes pos n e = rw e refl

positive : (k : ℕ) → (k ≡ 0) ⊎ (0 < k)
positive zero = inl refl
positive (suc k) = inr (omega arith)

suffix_sum : (k v : ℕ) → k ≤ 31 → v < 2 ^ k → (2 ^ k - 1 + v) % 4_294_967_296 ≡ 2 ^ k - 1 + v
suffix_sum k v l h = let bound = pow_le k 31 l in omega (arith, bound, h)

-- A code of at most 31 zeros, a one and as many bits behind it as there were zeros, all inside the
-- data, is read as 2^k - 1 and the number that those bits spell, and the reader stands behind it.
pub read_ue-Zeros :
    (k : ℕ) (r : BitReader)
    → k ≤ 31
    → Zeros k r
    → r.pos + 2 * k + 1 ≤ length r.bytes * 8
    → read_ue r ≡ (
      record r { pos = r.pos + 2 * k + 1 },
      ok (2 ^ k - 1 + bits_from r.bytes (r.pos + k + 1) k 0),
    )
unfolding read_ue
read_ue-Zeros k r l h inside = elim (positive k) [
  | inl z ↦
      let counted = count_zeros-Zeros 31 0 k r l h in
      let empty = bits_from-none r.bytes (r.pos + k + 1) k z in ground (arith, z, counted, empty)
  | inr p ↦
      let counted = count_zeros-Zeros 31 0 k r l h in
      let after : BitReader = record r { pos = r.pos + k + 1 } in
      let suffix = read_bits-inside k after p (omega (arith, l)) (omega (arith, inside)) in
      let small = bits-lt r.bytes (r.pos + k + 1) k (omega (arith, l)) in
      ground
        (arith, counted, suffix, p, suffix_sum k (bits_from r.bytes (r.pos + k + 1) k 0) l small)
]
