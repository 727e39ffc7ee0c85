-- ===== src/Discover/RoundTrip.antt =====
-- pkg/worker/hdhr_discover.go: a reply is parsed back as the tags that it was built of.
use tvproxy.Base.{
  ℕ, zero, suc, ◌+◌, ◌*◌, ◌/◌, ◌%◌, ◌≤◌, ◌<◌, ◌≡◌, refl, ap, ◌∙◌, some, inl, inr, true, false, [],
  ◌∷◌, ◌++◌, arith, ltb, Bool-cases, length, length-append, take-length, drop-length,
}
use tvproxy.Extradata.{Bytes, byte_at}
use tvproxy.Discover.{
  Tags, put_tag, put_all, read_var_len, parse_tags, parsed, packet, u32_le, parse_checked,
  parse_packet, encode_u32_le, encode_var_len, encode_tlv, encode_tags, reply_tags, frame,
  build_discover_reply,
}

read-encode_var_len :
    (n : ℕ) (rest : Bytes)
    → n < 32_768
    → read_var_len (encode_var_len n ++ rest) ≡ (n, length (encode_var_len n))
unfolding read_var_len encode_var_len
read-encode_var_len n [] h = ground (arith, h)
read-encode_var_len n (b ∷ bs) h = ground (arith, h)

-- One turn, once the length is known.
enough-append : (value rest : Bytes) → ltb (length (value ++ rest)) (length value) ≡ false
enough-append value rest = ground (arith, length-append value rest)

parse-short :
    (fuel tag b : ℕ) (value rest : Bytes) (tags : Tags)
    → read_var_len (b ∷ (value ++ rest)) ≡ (length value, 1)
    → parse_tags (suc fuel) (tag ∷ b ∷ (value ++ rest)) tags
      ≡ parse_tags fuel rest (put_tag tag value tags)
unfolding parse_tags
parse-short fuel tag b value rest tags e =
    ground (arith, e, enough-append value rest, take-length value rest, drop-length value rest)

parse-long :
    (fuel tag b c : ℕ) (value rest : Bytes) (tags : Tags)
    → read_var_len (b ∷ c ∷ (value ++ rest)) ≡ (length value, 2)
    → parse_tags (suc fuel) (tag ∷ b ∷ c ∷ (value ++ rest)) tags
      ≡ parse_tags fuel rest (put_tag tag value tags)
unfolding parse_tags
parse-long fuel tag b c value rest tags e =
    ground (arith, e, enough-append value rest, take-length value rest, drop-length value rest)

read_short : (n : ℕ) (rest : Bytes) → ltb n 128 ≡ true → read_var_len (n ∷ rest) ≡ (n, 1)
unfolding read_var_len
read_short n [] e = ground arith
read_short n (b ∷ bs) e = ground arith

read_long :
    (n : ℕ) (rest : Bytes)
    → n < 32_768
    → ltb n 128 ≡ false
    → read_var_len ((n % 128 + 128) ∷ (n / 128) % 256 ∷ rest) ≡ (n, 2)
unfolding read_var_len
read_long n rest h e = ground arith

parse-encode_tlv :
    (fuel tag : ℕ) (value rest : Bytes) (tags : Tags)
    → length value < 32_768
    → parse_tags (suc fuel) (encode_tlv tag value ++ rest) tags
      ≡ parse_tags fuel rest (put_tag tag value tags)
unfolding encode_tlv encode_var_len
parse-encode_tlv fuel tag value rest tags h = elim (Bool-cases (ltb (length value) 128)) [
  | inl e ↦ rw e (
      parse-short fuel tag (length value) value rest tags
        (read_short (length value) (value ++ rest) e))
  | inr e ↦
      rw e (parse-long fuel tag _ _ value rest tags (read_long (length value) (value ++ rest) h e))
]

length-encode_tlv : (tag : ℕ) (value : Bytes) → length value < length (encode_tlv tag value)
unfolding encode_tlv
length-encode_tlv tag value = omega (arith, length-append (encode_var_len (length value)) value)

short_value :
    (t : ℕ) (v : Bytes) (ts : Tags)
    → length (encode_tags ((t, v) ∷ ts)) < 32_768
    → length v < 32_768
short_value t v ts b =
    omega (arith, b, length-append (encode_tlv t v) (encode_tags ts), length-encode_tlv t v)

short_rest :
    (t : ℕ) (v : Bytes) (ts : Tags)
    → length (encode_tags ((t, v) ∷ ts)) < 32_768
    → length (encode_tags ts) < 32_768
short_rest t v ts b = omega (arith, b, length-append (encode_tlv t v) (encode_tags ts))

-- Every value is short when the payload is.
parse-encode_tags :
    (fuel : ℕ) (ts tags : Tags)
    → length ts ≤ fuel
    → length (encode_tags ts) < 32_768
    → parse_tags fuel (encode_tags ts) tags ≡ some (put_all ts tags)
unfolding parse_tags
parse-encode_tags zero [] tags h b = refl
parse-encode_tags (suc fuel) [] tags h b = refl
parse-encode_tags zero ((t, v) ∷ ts) tags h b = ground (arith, h)
parse-encode_tags (suc fuel) ((t, v) ∷ ts) tags h b =
    parse-encode_tlv fuel t v (encode_tags ts) tags (short_value t v ts b)
    ∙ parse-encode_tags fuel ts (put_tag t v tags) (omega (arith, h)) (short_rest t v ts b)

length-encode_tags : (ts : Tags) → length ts ≤ length (encode_tags ts)
length-encode_tags [] = omega arith
length-encode_tags ((t, v) ∷ ts) = omega (
  arith,
  length-append (encode_tlv t v) (encode_tags ts),
  length-encode_tlv t v,
  length-encode_tags ts,
)

checksum_lem : (v : ℕ) → v < 4_294_967_296 → u32_le (encode_u32_le v) ≡ v
unfolding byte_at
checksum_lem v h = omega arith

checked_lem :
    (crc : Bytes → ℕ) (a b c d : ℕ) (payload : Bytes)
    → length payload ≤ 2040
    → crc (a ∷ b ∷ c ∷ d ∷ payload) < 4_294_967_296
    → let body : Bytes = a ∷ b ∷ c ∷ d ∷ payload in
      let bytes : Bytes = body ++ encode_u32_le (crc body) in
      parse_checked crc bytes (length body)
      ≡ parsed (a * 256 + b) (parse_tags (length bytes) payload [])
unfolding parse_checked byte_at
checked_lem crc a b c d payload h small =
    let body : Bytes = a ∷ b ∷ c ∷ d ∷ payload in
    let tail : Bytes = encode_u32_le (crc body) in
    rw (drop-length body tail, take-length body tail, checksum_lem (crc body) small)
      (ground (arith, h, take-length payload tail))

parse-enough :
    (crc : Bytes → ℕ) (a b c d : ℕ) (payload tail : Bytes)
    → c * 256 + d ≡ length payload
    → length payload ≤ 2040
    → length tail ≡ 4
    → let body : Bytes = a ∷ b ∷ c ∷ d ∷ payload in
      parse_packet crc (body ++ tail) ≡ parse_checked crc (body ++ tail) (length body)
unfolding parse_packet byte_at
parse-enough crc a b c d payload tail e h t = ground (arith, e, h, t, length-append payload tail)

header_type : (type : ℕ) → type < 65_536 → (type / 256) % 256 * 256 + type % 256 ≡ type
header_type type h = omega (arith, h)

enough_fuel :
    (ts : Tags) (tail : Bytes) → length ts ≤ suc (suc (suc (suc (length (encode_tags ts ++ tail)))))
enough_fuel ts tail = omega (arith, length-append (encode_tags ts) tail, length-encode_tags ts)

-- The framing alone: type, length and checksum.
parse-frame :
    (crc : Bytes → ℕ) (type : ℕ) (ts : Tags)
    → ((bytes : Bytes) → crc bytes < 4_294_967_296)
    → type < 65_536
    → length (encode_tags ts) ≤ 2040
    → parse_packet crc (frame crc type (encode_tags ts)) ≡ packet type (put_all ts [])
unfolding frame
parse-frame crc type ts small t h =
    let payload = encode_tags ts in
    let a = (type / 256) % 256 in
    let b = type % 256 in
    let c = (length payload / 256) % 256 in
    let d = length payload % 256 in
    let body : Bytes = a ∷ b ∷ c ∷ d ∷ payload in
    parse-enough crc a b c d payload (encode_u32_le (crc body)) (omega (arith, h)) h refl
    ∙ checked_lem crc a b c d payload h (small body)
    ∙ ap (λ n. parsed n (parse_tags (length (body ++ encode_u32_le (crc body))) payload []))
        (header_type type t)
    ∙ ap (parsed type)
        (parse-encode_tags _ ts [] (enough_fuel ts (encode_u32_le (crc body))) (omega (arith, h)))

-- A reply of the worker whose payload has at most 2040 bytes, which fits the buffer of `Run` with
-- its framing, is parsed back, whatever the checksum function of 32 bits is: as a packet of type 3
-- with the tags that the reply was built of, the last value of each tag.
pub parse-build_discover_reply :
    (crc : Bytes → ℕ) (device_id tuner_count : ℕ) (auth base_url : Bytes)
    → ((bytes : Bytes) → crc bytes < 4_294_967_296)
    → length (encode_tags (reply_tags device_id tuner_count auth base_url)) ≤ 2040
    → parse_packet crc (build_discover_reply crc device_id tuner_count auth base_url)
      ≡ packet 3 (put_all (reply_tags device_id tuner_count auth base_url) [])
unfolding build_discover_reply
parse-build_discover_reply crc device_id tuner_count auth base_url small h =
    parse-frame crc 3 (reply_tags device_id tuner_count auth base_url) small (omega arith) h
