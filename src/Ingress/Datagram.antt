-- ===== src/Ingress/Datagram.antt =====
-- The datagrams of rove-ingress/1, src/ingress/frame.rs, and its identifiers of 128 bits.
pub mod Hex
pub mod RoundTrip
use rove.Base.{
  ℕ, zero, suc, ◌+◌, ◌-◌, ◌*◌, ◌/◌, ◌%◌, ◌^◌, ◌≤◌, ◌<◌, min, max, bit_and, bit_or, bit_xor,
}
use rove.Base.{
  ◌≡◌, refl, sym, ap, ◌∙◌, ◌≢◌, ◌↔◌, ◌⊎◌, inl, inr, Bool, true, false, not, ◌&&◌, ◌||◌, Option,
  none, some, List, [], ◌∷◌, ◌++◌, map, arith,
}
use rove.Base.{
  ltb, leb, ◌==◌, if◌then◌else◌, ltb→lt, lt→ltb, leb→le, le→leb, le→ltb_false, ==_iff, Bool-cases,
  Option-cases,
}
use rove.Base.{
  drop-append_add, All-take, All-append, replicate, length, get_elem?, set, take, drop, any, all,
  All, length-append, length-take, length-drop, take-append_length, drop-append_length,
  take-append-drop, any-append, length-set, get_elem?-set_self, get_elem?-set_ne,
}
use rove.Base.Bytes.{
  ascii, IsByte, to_le_bytes, to_be_bytes, from_le_bytes, from_be_bytes, slice, byte_at, xor_prefix,
  length-to_le_bytes, length-to_be_bytes, from_le_bytes-to_le_bytes, from_be_bytes-to_be_bytes,
  to_le_bytes-IsByte, length-xor_prefix, xor_prefix_twice, xor_prefix-append,
}
use rove.Base.Eq.{Eq, same, same_refl, list_beq, list_beq_iff, member, nat_eq, list_eq}
use rove.Base.Bytes.{ascii}
use rove.Base.Text.{
  Text, is_empty, to_ascii_lowercase, trim, trim_matches, strip_prefix, contains_text, split_on,
  split_once, join_with,
}
use rove.Base.Text.Split.{IsFree, split_on-IsFree, split_on-join_with}
use rove.Base.Result.{Result, ok, err, ◌>>=◌, ensure, ok_or}
use rove.Base.Assoc.{find, has_key, insert}
use rove.Base.Bytes.{u16_at}
use rove.Net.{IpAddr, ipv4, ipv6, SocketAddr, new_socket}

pub data FrameError : Type 0 where
  malformed : Text → FrameError
  unsupported_version too_large random : FrameError

abbrev pub datagram_magic : List ℕ
datagram_magic = ascii "RI"

abbrev pub datagram_version : ℕ
datagram_version = 1

abbrev pub datagram_uplink : ℕ
datagram_uplink = 1

abbrev pub datagram_downlink : ℕ
datagram_downlink = 2

abbrev pub datagram_fixed : ℕ
datagram_fixed = 28

-- An identifier is its 16 bytes.
abbrev pub Id128 : Type 0
Id128 = List ℕ

abbrev pub is_ascii_hexdigit : ℕ → Bool
is_ascii_hexdigit c =
    leb b'0' c && leb c b'9' || leb b'a' c && leb c b'f' || leb b'A' c && leb c b'F'

-- Of a hexadecimal digit.
abbrev pub hex_nibble : ℕ → ℕ
hex_nibble c =
    if leb b'0' c && leb c b'9'
    then c - b'0'
    else (if leb b'a' c && leb c b'f' then c - b'a' + 10 else c - b'A' + 10)

-- A left shift by 4 of a nibble, and the other one in its place.
abbrev pub hex_pairs : Text → List ℕ
hex_pairs [] = []
hex_pairs (a ∷ []) = []
hex_pairs (a ∷ b ∷ s) = bit_or (hex_nibble a * 16) (hex_nibble b) ∷ hex_pairs s

unfoldable pub parse_hex : Text → Result FrameError Id128
parse_hex value = do
  _ ←
      ensure (length value == 32 && all is_ascii_hexdigit value)
        (malformed (ascii "id must be 32 hex characters"))
  ok (hex_pairs value)

abbrev pub hex_digit : ℕ → ℕ
hex_digit v = if ltb v 10 then b'0' + v else b'a' + (v - 10)

-- `{byte:02x}` of each byte
unfoldable pub display_id : Id128 → Text
display_id [] = []
display_id (b ∷ bs) = hex_digit (b / 16) ∷ hex_digit (b % 16) ∷ display_id bs

pub data Datagram : Type 0 where
  uplink : ℕ → Id128 → SocketAddr → List ℕ → Datagram
  downlink : ℕ → Id128 → List ℕ → Datagram

unfoldable pub encode_addr : SocketAddr → List ℕ
encode_addr a = elim (a.ip) [
  | ipv4 v4 ↦ 4 ∷ (to_be_bytes 4 v4 ++ to_be_bytes 2 a.port)
  | ipv6 octets ↦ 6 ∷ (octets ++ to_be_bytes 2 a.port)
]

unfoldable pub encode_datagram : Datagram → List ℕ
unfolding encode_addr
encode_datagram (uplink lease_id flow_id client_addr payload) =
    datagram_magic
    ++ datagram_version
      ∷ datagram_uplink
      ∷ (to_be_bytes 8 lease_id ++ (flow_id ++ (encode_addr client_addr ++ payload)))
encode_datagram (downlink lease_id flow_id payload) =
    datagram_magic
    ++ datagram_version ∷ datagram_downlink ∷ (to_be_bytes 8 lease_id ++ (flow_id ++ payload))

-- The address at an offset, and the offset behind it.
unfoldable pub decode_v4 : List ℕ → ℕ → Result FrameError (SocketAddr × ℕ)
decode_v4 bytes offset = do
  _ ← ensure (not (ltb (length bytes) (offset + 7))) (malformed (ascii "truncated ipv4 address"))
  let ip = ipv4 (from_be_bytes (take 4 (drop (offset + 1) bytes)))
  ok (new_socket ip (u16_at bytes (offset + 5)), offset + 7)

unfoldable pub decode_v6 : List ℕ → ℕ → Result FrameError (SocketAddr × ℕ)
decode_v6 bytes offset = do
  _ ← ensure (not (ltb (length bytes) (offset + 19))) (malformed (ascii "truncated ipv6 address"))
  let ip = ipv6 (take 16 (drop (offset + 1) bytes))
  ok (new_socket ip (u16_at bytes (offset + 17)), offset + 19)

unfoldable pub decode_addr : List ℕ → ℕ → Result FrameError (SocketAddr × ℕ)
unfolding decode_v4 decode_v6
decode_addr bytes offset = do
  kind ← ok_or (get_elem? bytes offset) (malformed (ascii "missing address type"))
  if kind == 4
      then decode_v4 bytes offset
      else (if kind == 6
          then decode_v6 bytes offset
          else err (malformed (ascii "invalid address type")))

unfoldable pub parse_uplink : ℕ → Id128 → List ℕ → Result FrameError Datagram
unfolding decode_addr
parse_uplink lease_id flow_id bytes = do
  (client_addr, offset) ← decode_addr bytes datagram_fixed
  ok (uplink lease_id flow_id client_addr (drop offset bytes))

unfoldable pub parse_datagram : List ℕ → Result FrameError Datagram
unfolding parse_uplink
parse_datagram bytes = do
  _ ← ensure (not (ltb (length bytes) datagram_fixed)) (malformed (ascii "datagram too short"))
  _ ←
      ensure (list_beq (take 2 bytes) datagram_magic && byte_at bytes 2 == datagram_version)
        unsupported_version
  let lease_id = from_be_bytes (slice 4 12 bytes)
  let flow_id = slice 12 28 bytes
  if byte_at bytes 3 == datagram_uplink
      then parse_uplink lease_id flow_id bytes
      else (if byte_at bytes 3 == datagram_downlink
          then ok (downlink lease_id flow_id (drop datagram_fixed bytes))
          else err (malformed (ascii "unknown datagram type")))
