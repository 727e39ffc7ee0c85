-- ===== src/Extradata/Avcc.antt =====
-- pkg/lib/av/extradata/h264.go: a reader of avcC records gets back the units that were written.
use tvproxy.Base.{
  ℕ, zero, suc, ◌+◌, ◌*◌, ◌/◌, ◌%◌, ◌≤◌, ◌<◌, ◌≡◌, refl, sym, ap, ◌∙◌, ◌≢◌, List, [], ◌∷◌, ◌++◌,
  Option, none, some, ok, arith, ok_inj, ok-ne-err, ltb, if◌then◌else◌, length, take, drop, All,
  length-append, take-length, drop-length, append_assoc, append_nil, Bool-cases, ltb→le, inl, inr,
}
use tvproxy.Extradata.{
  Bytes, byte_at, put_units, avcc_of, avcc_from, h264_to_avcc, of_type, split_nal_units,
}

-- A unit of that size, and what `reader` finds behind it.
abbrev sized : (Bytes → Option (List Bytes × Bytes)) → ℕ → Bytes → Option (List Bytes × Bytes)
sized reader size bytes =
    if ltb (length bytes) size then none else elim (reader (drop size bytes)) [
      | none ↦ none
      | some r ↦ some (take size bytes ∷ r.0, r.1)
    ]

-- What the decoder of an avcC record reads: `n` units, each behind its length in two bytes.
unfoldable pub get_units : ℕ → Bytes → Option (List Bytes × Bytes)
get_units zero bytes = some ([], bytes)
get_units (suc n) [] = none
get_units (suc n) (a ∷ []) = none
get_units (suc n) (a ∷ b ∷ bytes) = sized (get_units n) (a * 256 + b) bytes

size_of_u16 : (n : ℕ) → n < 65_536 → ((n / 256) % 256) * 256 + n % 256 ≡ n
size_of_u16 n h = omega (arith, h)

count_back : (n : ℕ) → n < 32 → (224 + n % 32) % 32 ≡ n
count_back n h = omega (arith, h)

small_mod : (n : ℕ) → n < 256 → n % 256 ≡ n
small_mod n h = omega (arith, h)

sized-append :
    (reader : Bytes → Option (List Bytes × Bytes)) (u rest : Bytes) (us : List Bytes) (more : Bytes)
    → reader rest ≡ some (us, more)
    → sized reader (length u) (u ++ rest) ≡ some (u ∷ us, more)
sized-append reader u rest us more e =
    let found : reader (drop (length u) (u ++ rest)) ≡ some (us, more) =
      ap reader (drop-length u rest) ∙ e in
    ground (arith, found, length-append u rest, take-length u rest)

get-put :
    (us : List Bytes) (rest : Bytes)
    → All (λ u. length u < 65_536) us
    → get_units (length us) (put_units us ++ rest) ≡ some (us, rest)
unfolding get_units put_units
get-put [] rest h = refl
get-put (u ∷ us) rest h =
    ap (λ size. sized (get_units (length us)) size ((u ++ put_units us) ++ rest))
      (size_of_u16 (length u) h.0)
    ∙ ap (sized (get_units (length us)) (length u)) (append_assoc u (put_units us) rest)
    ∙ sized-append (get_units (length us)) u (put_units us ++ rest) us rest (get-put us rest h.1)

abbrev second_list : List Bytes → Option (List Bytes × Bytes) → Option (List Bytes × List Bytes)
second_list us none = none
second_list us (some r) = some (us, r.0)

abbrev both_lists : Option (List Bytes × Bytes) → Option (List Bytes × List Bytes)
both_lists none = none
both_lists (some (us, [])) = none
both_lists (some (us, m ∷ bytes)) = second_list us (get_units m bytes)

-- The whole record, read from its head: the version, the profile, its compatibility, the level, the
-- size of the lengths, and then both lists of units with their numbers.
unfoldable pub get_avcc : Bytes → Option (List Bytes × List Bytes)
get_avcc (_ ∷ _ ∷ _ ∷ _ ∷ _ ∷ n ∷ bytes) = both_lists (get_units (n % 32) bytes)
get_avcc _ = none

-- Both lists fit the record: at most 31 units in the one and 255 in the other, each shorter than 64 KiB.
abbrev pub Fits : List Bytes → List Bytes → Type 0
Fits sps_list pps_list =
    (length sps_list < 32)
    × (length pps_list < 256)
    × All (λ u. length u < 65_536) sps_list
    × All (λ u. length u < 65_536) pps_list

get_avcc-avcc_of :
    (sps : Bytes) (ss ps : List Bytes) → Fits ss ps → get_avcc (avcc_of sps ss ps) ≡ some (ss, ps)
unfolding get_avcc
get_avcc-avcc_of sps ss ps f =
    ap (λ n. both_lists (get_units n (put_units ss ++ ((length ps % 256) ∷ put_units ps))))
      (count_back (length ss) f.0)
    ∙ ap both_lists (get-put ss ((length ps % 256) ∷ put_units ps) f.2)
    ∙ ap (λ n. second_list ss (get_units n (put_units ps))) (small_mod (length ps) f.1)
    ∙ ap (second_list ss)
        (ap (get_units (length ps)) (sym (append_nil (put_units ps))) ∙ get-put ps [] f.3)

avcc_from-avcc_of :
    (ss ps : List Bytes) (out : Bytes)
    → avcc_from ss ps ≡ ok out
    → (sps : Bytes) × (out ≡ avcc_of sps ss ps) × (4 ≤ length sps)
unfolding avcc_from
avcc_from-avcc_of [] ps out h = elim (ok-ne-err (sym h)) [ ]
avcc_from-avcc_of (sps ∷ ss) [] out h = elim (ok-ne-err (sym h)) [ ]
avcc_from-avcc_of (sps ∷ ss) (p ∷ ps) out h = elim (Bool-cases (ltb (length sps) 4)) [
  | inl e ↦ elim (ok-ne-err (sym (rw e at h))) [ ]
  | inr e ↦ (sps, sym (ok_inj (rw e at h)), ltb→le (length sps) 4 e)
]

-- What `h264ToAvcC` makes of a stream of units is read back as the stream's sequence and picture
-- parameter sets, in their order, if they fit a record.
pub h264_to_avcc-get :
    (bytes out : Bytes)
    → h264_to_avcc bytes ≡ ok out
    → 0 < length bytes
    → byte_at bytes 0 ≢ 1
    → Fits (of_type 7 (split_nal_units bytes)) (of_type 8 (split_nal_units bytes))
    → get_avcc out ≡ some (of_type 7 (split_nal_units bytes), of_type 8 (split_nal_units bytes))
unfolding h264_to_avcc
h264_to_avcc-get bytes out h p n f =
    let units = split_nal_units bytes in
    let made : avcc_from (of_type 7 units) (of_type 8 units) ≡ ok out = ground (arith, h, p, n) in
    let record_of = avcc_from-avcc_of (of_type 7 units) (of_type 8 units) out made in
    ap get_avcc record_of.1 ∙ get_avcc-avcc_of record_of.0 (of_type 7 units) (of_type 8 units) f
