-- ===== src/Discover/Panics.antt =====
-- pkg/worker/hdhr_discover.go: which packets make `parsePacket` slice out of range.
use tvproxy.Base.{
  ℕ, zero, suc, ◌+◌, ◌≤◌, ◌<◌, ◌≡◌, refl, ◌≢◌, inl, inr, false, [], ◌∷◌, some, arith, length, take,
  drop, ltb, length-drop, length-take-le_all, Bool-cases,
}
use tvproxy.Extradata.{Bytes}
use tvproxy.Discover.{
  Tags, put_tag, read_var_len, parse_tags, panicked, u16_be, crc_end, parse_checked, parse_packet,
}

-- A length takes none but the bytes that are there.
read_var_len-le : (b : ℕ) (bytes : Bytes) → (read_var_len (b ∷ bytes)).1 ≤ suc (length bytes)
unfolding read_var_len
read_var_len-le b [] = ground arith
read_var_len-le b (c ∷ bytes) = ground arith

-- With fuel for the bytes of the payload the loop ends, and makes no slice out of range.
parse_tags-some :
    (fuel : ℕ) (payload : Bytes) (tags : Tags)
    → length payload ≤ fuel
    → (found : Tags) × (parse_tags fuel payload tags ≡ some found)
unfolding parse_tags
parse_tags-some zero [] tags h = (tags, refl)
parse_tags-some (suc fuel) [] tags h = (tags, refl)
parse_tags-some zero (tag ∷ bytes) tags h = ground (arith, h)
parse_tags-some (suc fuel) (tag ∷ []) tags h = (tags, refl)
parse_tags-some (suc fuel) (tag ∷ b ∷ bytes) tags h =
    let size = read_var_len (b ∷ bytes) in
    let rest = drop (1 + size.1) (tag ∷ b ∷ bytes) in
    let inside : ltb (length (tag ∷ b ∷ bytes)) (1 + size.1) ≡ false =
      ground (arith, read_var_len-le b bytes) in
    elim (Bool-cases (ltb (length rest) size.0)) [
      | inl short ↦ (tags, ground (arith, inside, short))
      | inr long ↦
          let next = drop size.0 rest in
          let found = parse_tags-some fuel next (put_tag tag (take size.0 rest) tags) (
            omega
              (arith, h, length-drop size.0 rest, length-drop (1 + size.1) (tag ∷ b ∷ bytes))) in
          (found.0, ground (arith, inside, long, found.1))
    ]

-- A packet from the buffer that announces fewer than 65528 bytes of payload makes no slice go out of
-- range, neither those of the frame nor those of the loop over the tags, whatever else it holds.
pub parse_packet-panicked :
    (crc : Bytes → ℕ) (bytes : Bytes)
    → length bytes ≤ 2048
    → u16_be (drop 2 bytes) < 65_528
    → parse_packet crc bytes ≢ panicked
unfolding parse_packet parse_checked
parse_packet-panicked crc bytes h small =
    let end = crc_end (u16_be (drop 2 bytes)) in
    let payload = drop 4 (take end bytes) in
    let found =
      parse_tags-some (length bytes) payload []
        (omega (arith, length-drop 4 (take end bytes), length-take-le_all end bytes)) in
    ground (arith, h, small, found.1)

-- Every packet of at least 4 bytes that announces from 65528 to 65531 of them panics, since the
-- sum of uint16 that its length is compared with wraps around to at most 3, and the sum that the
-- slice ends at does not. No checksum is looked at before.
pub parse_packet-wrap :
    (crc : Bytes → ℕ) (bytes : Bytes)
    → 4 ≤ length bytes
    → 65_528 ≤ u16_be (drop 2 bytes)
    → u16_be (drop 2 bytes) ≤ 65_531
    → parse_packet crc bytes ≡ panicked
unfolding parse_packet parse_checked
parse_packet-wrap crc bytes h low high = ground (arith, h, low, high)
