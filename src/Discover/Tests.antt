-- ===== src/Discover/Tests.antt =====
-- Concrete discovery packets: the witnesses of the theorems, and runs of the handler.
use tvproxy.Base.{ℕ, ◌+◌, ◌*◌, ◌%◌, ◌<◌, ◌≡◌, ◌≢◌, refl, true, false, List, [], ◌∷◌, arith, length}
use tvproxy.Extradata.{Bytes, byte_at}
use tvproxy.Discover.{
  Tags, packet, panicked, Device, put_all, reply_tags, parse_packet, build_discover_reply,
  handle_discover_request, replies, encode_u32, encode_tlv, encode_var_len,
}
use tvproxy.Discover.RoundTrip.{parse-build_discover_reply}
use tvproxy.Discover.Panics.{parse_packet-panicked, parse_packet-wrap}

-- A checksum to compute with.
abbrev checksum : Bytes → ℕ
checksum [] = 0
checksum (b ∷ bs) = (b + 3 * checksum bs) % 4_294_967_296

checksum_small : (bytes : Bytes) → checksum bytes < 4_294_967_296
checksum_small [] = omega arith
checksum_small (b ∷ bs) = omega arith

abbrev url : Bytes
url = b'h' ∷ b't' ∷ b't' ∷ b'p' ∷ []

parse-build_discover_reply_example :
    parse_packet checksum (build_discover_reply checksum 0x1234_5678 4 [] url)
    ≡ packet 3 (put_all (reply_tags 0x1234_5678 4 [] url) [])
unfolding reply_tags encode_u32 encode_tlv encode_var_len
parse-build_discover_reply_example =
    parse-build_discover_reply checksum 0x1234_5678 4 [] url checksum_small (omega arith)

-- A request for every tuner.
abbrev request : Bytes
request = 0 ∷ 2 ∷ 0 ∷ 6 ∷ 1 ∷ 4 ∷ 0 ∷ 0 ∷ 0 ∷ 1 ∷ 9 ∷ 9 ∷ 9 ∷ 9 ∷ []

parse_packet-panicked_example : parse_packet checksum request ≢ panicked
unfolding byte_at
parse_packet-panicked_example = parse_packet-panicked checksum request (omega arith) (omega arith)

abbrev crafted : Bytes
crafted = 0 ∷ 2 ∷ 0xff ∷ 0xf8 ∷ 0 ∷ 0 ∷ 0 ∷ 0 ∷ []

parse_packet-wrap_example : parse_packet checksum crafted ≡ panicked
unfolding byte_at
parse_packet-wrap_example =
    parse_packet-wrap checksum crafted (omega arith) (omega arith) (omega arith)

abbrev tuner : Device
tuner = record { is_enabled = true; port = 5004; number = 7; tuner_count = 2; auth = [] }

-- A device that is switched off does not answer, nor does any for another type.
count_replies : Tags → List Device → ℕ
unfolding handle_discover_request replies
count_replies tags devices = length (handle_discover_request checksum (λ port. url) [] tags devices)

both_asked : count_replies [] (tuner ∷ record tuner { is_enabled = false } ∷ []) ≡ 1
unfolding count_replies handle_discover_request replies
both_asked = refl

other_id : count_replies ((2, 0 ∷ 0 ∷ 0 ∷ 8 ∷ []) ∷ []) (tuner ∷ []) ≡ 0
unfolding count_replies handle_discover_request replies byte_at
other_id = refl

other_type : count_replies ((1, 0 ∷ 0 ∷ 0 ∷ 2 ∷ []) ∷ []) (tuner ∷ []) ≡ 0
unfolding count_replies handle_discover_request byte_at
other_type = refl
