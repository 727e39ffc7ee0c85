-- ===== src/Discover.antt =====
-- pkg/worker/hdhr_discover.go: the answers to HDHomeRun discovery packets. A packet is a list of
-- bytes, at most as long as the buffer it is read into; CRC-32 is a parameter.
pub mod RoundTrip
pub mod Panics
mod Tests
use tvproxy.Base.{
  ℕ, zero, suc, ◌+◌, ◌*◌, ◌/◌, ◌%◌, Bool, true, false, not, ◌&&◌, ◌||◌, List, [], ◌∷◌, ◌++◌, Option,
  none, some, nat_eq, ltb, leb, if◌then◌else◌, length, take, drop,
}
use tvproxy.Extradata.{Bytes, byte_at}

-- The tags of a packet, as a map: the last value of a tag is kept.
abbrev pub Tags : Type 0
Tags = List (ℕ × Bytes)

abbrev pub put_tag : ℕ → Bytes → Tags → Tags
put_tag tag value [] = (tag, value) ∷ []
put_tag tag value ((t, v) ∷ tags) =
    if nat_eq t tag then (tag, value) ∷ tags else (t, v) ∷ put_tag tag value tags

abbrev pub get_tag : ℕ → Tags → Option Bytes
get_tag tag [] = none
get_tag tag ((t, v) ∷ tags) = if nat_eq t tag then some v else get_tag tag tags

abbrev pub put_all : Tags → Tags → Tags
put_all [] tags = tags
put_all ((t, v) ∷ more) tags = put_all more (put_tag t v tags)

-- The length, and the number of bytes it takes.
unfoldable pub read_var_len : Bytes → ℕ × ℕ
read_var_len [] = (0, 0)
read_var_len (b ∷ []) = if ltb b 128 then (b, 1) else (0, 1)
read_var_len (b ∷ c ∷ _) = if ltb b 128 then (b, 1) else (b % 128 + c * 128, 2)

-- `payload[n:]`, which panics past the end.
abbrev pub slice_from : ℕ → Bytes → Option Bytes
slice_from n bytes = if ltb (length bytes) n then none else some (drop n bytes)

-- The loop of `parsePacket`, on fuel; each turn takes a byte at least. The outcome is `none` if a
-- slice panics, and if the fuel runs out before the payload.
unfoldable pub parse_tags : ℕ → Bytes → Tags → Option Tags
parse_tags fuel [] tags = some tags
parse_tags zero (tag ∷ bytes) tags = none
parse_tags (suc fuel) (tag ∷ []) tags = some tags
parse_tags (suc fuel) (tag ∷ b ∷ bytes) tags =
    let size = read_var_len (b ∷ bytes) in
    elim (slice_from (1 + size.1) (tag ∷ b ∷ bytes)) [
      | none ↦ none
      | some rest ↦ elim (ltb (length rest) size.0) [
        | true ↦ some tags
        | false ↦ elim (slice_from size.0 rest) [
          | none ↦ none
          | some next ↦ parse_tags fuel next (put_tag tag (take size.0 rest) tags)
        ]
      ]
    ]

-- A slice out of range is a panic, which nothing recovers from.
pub data Parsed : Type 0 where
  panicked rejected : Parsed
  packet : ℕ → Tags → Parsed

-- What `parsePacket` gives behind its loop.
abbrev pub parsed : ℕ → Option Tags → Parsed
parsed type none = panicked
parsed type (some tags) = packet type tags

abbrev pub u16_be : Bytes → ℕ
u16_be bytes = byte_at bytes 0 * 256 + byte_at bytes 1

abbrev pub u32_be : Bytes → ℕ
u32_be bytes =
    byte_at bytes 0 * 16_777_216
    + byte_at bytes 1 * 65_536
    + byte_at bytes 2 * 256
    + byte_at bytes 3

abbrev pub u32_le : Bytes → ℕ
u32_le bytes =
    byte_at bytes 0
    + byte_at bytes 1 * 256
    + byte_at bytes 2 * 65_536
    + byte_at bytes 3 * 16_777_216

-- The length of the buffer that `Run` reads into.
abbrev pub buffer_size : ℕ
buffer_size = 2048

-- `4+payloadLen` and `4+payloadLen+4`, sums of uint16.
abbrev pub crc_end : ℕ → ℕ
crc_end payload_len = (4 + payload_len) % 65_536

abbrev pub packet_end : ℕ → ℕ
packet_end payload_len = (4 + payload_len + 4) % 65_536

abbrev pub encode_u16 : ℕ → Bytes
encode_u16 v = (v / 256) % 256 ∷ v % 256 ∷ []

unfoldable pub encode_u32 : ℕ → Bytes
encode_u32 v = (v / 16_777_216) % 256 ∷ (v / 65_536) % 256 ∷ (v / 256) % 256 ∷ v % 256 ∷ []

abbrev pub encode_u32_le : ℕ → Bytes
encode_u32_le v = v % 256 ∷ (v / 256) % 256 ∷ (v / 65_536) % 256 ∷ (v / 16_777_216) % 256 ∷ []

unfoldable pub encode_var_len : ℕ → Bytes
encode_var_len n = if ltb n 128 then n ∷ [] else (n % 128 + 128) ∷ (n / 128) % 256 ∷ []

unfoldable pub encode_tlv : ℕ → Bytes → Bytes
encode_tlv tag value = tag ∷ encode_var_len (length value) ++ value

abbrev pub encode_tags : Tags → Bytes
encode_tags [] = []
encode_tags ((t, v) ∷ tags) = encode_tlv t v ++ encode_tags tags

abbrev if_any : Bytes → Tags → Tags
if_any [] tag = []
if_any (b ∷ bs) tag = tag

-- `/lineup.json`.
abbrev lineup_path : Bytes
lineup_path = b'/' ∷ b'l' ∷ b'i' ∷ b'n' ∷ b'e' ∷ b'u' ∷ b'p' ∷ b'.' ∷ b'j' ∷ b's' ∷ b'o' ∷ b'n' ∷ []

-- The tags of a reply, in the order in which they are appended.
unfoldable pub reply_tags : ℕ → ℕ → Bytes → Bytes → Tags
reply_tags device_id tuner_count auth base_url =
    (1, encode_u32 1)
    ∷ (2, encode_u32 device_id)
    ∷ (if_any auth ((0x2b, auth) ∷ [])
        ++ (0x2a, base_url)
          ∷ ((if ltb 0 tuner_count then (0x10, tuner_count % 256 ∷ []) ∷ [] else [])
              ++ (0x27, base_url ++ lineup_path) ∷ []))

module _ (crc : Bytes → ℕ) where
  -- `parsePacket` behind the test of the length.
  unfoldable pub parse_checked : Bytes → ℕ → Parsed
  parse_checked bytes end =
      if ltb buffer_size end
      then panicked
      else if not (nat_eq (u32_le (drop end bytes)) (crc (take end bytes)))
      then rejected
      else if ltb end 4
      then panicked
      else parsed (u16_be bytes) (parse_tags (length bytes) (drop 4 (take end bytes)) [])

  unfoldable pub parse_packet : Bytes → Parsed
  unfolding parse_checked
  parse_packet bytes =
      if ltb (length bytes) 4
      then rejected
      else let payload_len = u16_be (drop 2 bytes) in
        if ltb (length bytes) (packet_end payload_len)
        then rejected
        else parse_checked bytes (crc_end payload_len)

  -- The header, the payload and their checksum.
  unfoldable pub frame : ℕ → Bytes → Bytes
  frame type payload =
      let body = encode_u16 type ++ (encode_u16 (length payload) ++ payload) in
      body ++ encode_u32_le (crc body)

  unfoldable pub build_discover_reply : ℕ → ℕ → Bytes → Bytes → Bytes
  unfolding reply_tags frame
  build_discover_reply device_id tuner_count auth base_url =
      frame 3 (encode_tags (reply_tags device_id tuner_count auth base_url))

pub record Device : Type 0 where
  pub is_enabled : Bool
  pub port : ℕ
  -- What `parseDeviceID` makes of the device's identifier.
  pub number : ℕ
  pub tuner_count : ℕ
  pub auth : Bytes

abbrev pub wildcard : ℕ
wildcard = 0xffff_ffff

-- A request for another type of device is not answered.
abbrev pub asks_for_tuner : Option Bytes → Bool
asks_for_tuner none = true
asks_for_tuner (some v) =
    not (nat_eq (length v) 4) || nat_eq (u32_be v) 1 || nat_eq (u32_be v) wildcard

abbrev pub requested_id : Option Bytes → ℕ
requested_id none = wildcard
requested_id (some v) = if nat_eq (length v) 4 then u32_be v else wildcard

abbrev pub is_asked : ℕ → Device → Bool
is_asked requested d =
    d.is_enabled && ltb 0 d.port && (nat_eq requested wildcard || nat_eq requested d.number)

module _ (crc : Bytes → ℕ) (url_of : ℕ → Bytes) (default_auth : Bytes) where
  abbrev auth_of : Bytes → Bytes
  auth_of [] = default_auth
  auth_of (b ∷ bs) = b ∷ bs

  unfoldable pub replies : ℕ → List Device → List Bytes
  replies requested [] = []
  replies requested (d ∷ ds) =
      let rest = replies requested ds in
      if is_asked requested d
      then build_discover_reply crc d.number d.tuner_count (auth_of d.auth) (url_of d.port) ∷ rest
      else rest

  -- `handleDiscoverRequest`: the packets that are sent back.
  unfoldable pub handle_discover_request : Tags → List Device → List Bytes
  unfolding replies
  handle_discover_request tags devices =
      if asks_for_tuner (get_tag 1 tags)
      then replies (requested_id (get_tag 2 tags)) devices
      else []
