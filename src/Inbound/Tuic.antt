-- ===== src/Inbound/Tuic.antt =====
-- The TUIC v5 wire codec, src/inbound/tuic/codec.rs. A stream is the list of the bytes that are still
-- to come.
pub mod Readers
pub mod RoundTrip
use rove.Base.{
  ℕ, zero, suc, ◌+◌, ◌-◌, ◌*◌, ◌/◌, ◌%◌, ◌^◌, ◌≤◌, ◌<◌, min, max, bit_and, bit_or, bit_xor,
}
use rove.Base.{
  ◌≡◌, refl, sym, ap, ◌∙◌, ◌≢◌, ◌↔◌, ◌⊎◌, inl, inr, Bool, true, false, not, ◌&&◌, ◌||◌, Option,
  none, some, List, [], ◌∷◌, ◌++◌, map, arith,
}
use rove.Base.{
  ltb, leb, ◌==◌, if◌then◌else◌, ltb→lt, lt→ltb, leb→le, le→leb, le→ltb_false, ==_iff, Bool-cases,
  Option-cases,
}
use rove.Base.{
  drop-append_add, All-take, All-append, replicate, length, get_elem?, set, take, drop, any, all,
  All, length-append, length-take, length-drop, take-append_length, drop-append_length,
  take-append-drop, any-append, length-set, get_elem?-set_self, get_elem?-set_ne,
}
use rove.Base.Bytes.{
  ascii, IsByte, to_le_bytes, to_be_bytes, from_le_bytes, from_be_bytes, slice, byte_at, xor_prefix,
  length-to_le_bytes, length-to_be_bytes, from_le_bytes-to_le_bytes, from_be_bytes-to_be_bytes,
  to_le_bytes-IsByte, length-xor_prefix, xor_prefix_twice, xor_prefix-append,
}
use rove.Base.Eq.{Eq, same, same_refl, list_beq, list_beq_iff, member, nat_eq, list_eq}
use rove.Base.Bytes.{ascii}
use rove.Base.Text.{
  Text, is_empty, to_ascii_lowercase, trim, trim_matches, strip_prefix, contains_text, split_on,
  split_once, join_with,
}
use rove.Base.Text.Split.{IsFree, split_on-IsFree, split_on-join_with}
use rove.Base.Result.{Result, ok, err, ◌>>=◌, ensure, ok_or}
use rove.Base.Assoc.{find, has_key, insert}
use rove.Base.Bytes.{u16_at}
use rove.Base.Text.Utf8.{Utf8}
use rove.Net.{IpAddr, ipv4, ipv6, AddrText}

abbrev pub version : ℕ
version = 0x05

abbrev pub packet_command : ℕ
packet_command = 0x02

abbrev pub heartbeat_command : ℕ
heartbeat_command = 0x04

abbrev pub atyp_none : ℕ
atyp_none = 0xff

abbrev pub atyp_domain : ℕ
atyp_domain = 0x00

abbrev pub atyp_v4 : ℕ
atyp_v4 = 0x01

abbrev pub atyp_v6 : ℕ
atyp_v6 = 0x02

pub data Address : Type 0 where
  no_address : Address
  domain : Text → ℕ → Address
  v4 : ℕ → ℕ → Address
  v6 : List ℕ → ℕ → Address

-- An error is its text, or the end of the stream.
pub data TuicError : Type 0 where
  bad : Text → TuicError
  unexpected_eof : TuicError

unfoldable pub host_port : AddrText → Address → Option (Text × ℕ)
host_port addr no_address = none
host_port addr (domain host port) = some (host, port)
host_port addr (v4 ip port) = some (addr.ip_to_string (ipv4 ip), port)
host_port addr (v6 ip port) = some (addr.ip_to_string (ipv6 ip), port)

-- A text is an address of either version, or else a domain.
unfoldable pub from_host_port : AddrText → Text → ℕ → Address
from_host_port addr host port = elim (addr.parse_ip host) [
  | none ↦ domain host port
  | some ip ↦ elim ip [ ipv4 a ↦ v4 a port | ipv6 o ↦ v6 o port ]
]

-- At most 255 bytes of a domain are written.
unfoldable pub encode_address : Address → List ℕ
encode_address no_address = atyp_none ∷ []
encode_address (domain host port) =
    atyp_domain ∷ min (length host) 255 ∷ (take (min (length host) 255) host ++ to_be_bytes 2 port)
encode_address (v4 ip port) = atyp_v4 ∷ (to_be_bytes 4 ip ++ to_be_bytes 2 port)
encode_address (v6 ip port) = atyp_v6 ∷ (ip ++ to_be_bytes 2 port)

-- `read_exact` of so many bytes
unfoldable pub read_exact : ℕ → List ℕ → Result TuicError (List ℕ × List ℕ)
read_exact n stream =
    if ltb (length stream) n then err unexpected_eof else ok (take n stream, drop n stream)

unfoldable pub read_command_type : List ℕ → Result TuicError (ℕ × List ℕ)
unfolding read_exact
read_command_type stream = do
  (hdr, rest) ← read_exact 2 stream
  _ ← ensure (byte_at hdr 0 == version) (bad (ascii "tuic: unsupported protocol version"))
  ok (byte_at hdr 1, rest)

unfoldable pub read_authenticate : List ℕ → Result TuicError ((List ℕ × List ℕ) × List ℕ)
unfolding read_exact
read_authenticate stream = do
  (uuid, rest) ← read_exact 16 stream
  (token, left) ← read_exact 32 rest
  ok ((uuid, token), left)

unfoldable pub read_u16 : List ℕ → Result TuicError (ℕ × List ℕ)
unfolding read_exact
read_u16 stream = do (p, rest) ← read_exact 2 stream; ok (from_be_bytes p, rest)

module _ (u : Utf8) where
  unfoldable pub read_domain : List ℕ → Result TuicError (Address × List ℕ)
  read_domain stream = do
    (l, rest) ← read_exact 1 stream
    (d, more) ← read_exact (byte_at l 0) rest
    (port, left) ← read_u16 more
    ok (domain (u.from_utf8_lossy d) port, left)

  unfoldable pub read_v4 : List ℕ → Result TuicError (Address × List ℕ)
  read_v4 stream = do
    (a, rest) ← read_exact 4 stream
    (port, left) ← read_u16 rest
    ok (v4 (from_be_bytes a) port, left)

  unfoldable pub read_v6 : List ℕ → Result TuicError (Address × List ℕ)
  read_v6 stream = do
    (a, rest) ← read_exact 16 stream
    (port, left) ← read_u16 rest
    ok (v6 a port, left)

  unfoldable pub read_address : List ℕ → Result TuicError (Address × List ℕ)
  read_address stream = do
    (t, rest) ← read_exact 1 stream
    if byte_at t 0 == atyp_none
        then ok (no_address, rest)
        else (if byte_at t 0 == atyp_domain
            then read_domain rest
            else (if byte_at t 0 == atyp_v4
                then read_v4 rest
                else (if byte_at t 0 == atyp_v6
                    then read_v6 rest
                    else err (bad (ascii "tuic: bad address type")))))

  -- The address, and the bytes that it takes.
  unfoldable pub parse_domain : List ℕ → Result TuicError (Address × ℕ)
  parse_domain buf = do
    l ← ok_or (get_elem? buf 1) (bad (ascii "tuic: address domain len"))
    _ ← ensure (not (ltb (length buf) (2 + l + 2))) (bad (ascii "tuic: address domain truncated"))
    ok (domain (u.from_utf8_lossy (take l (drop 2 buf))) (u16_at buf (2 + l)), 2 + l + 2)

  unfoldable pub parse_v4 : List ℕ → Result TuicError (Address × ℕ)
  parse_v4 buf = do
    _ ← ensure (not (ltb (length buf) 7)) (bad (ascii "tuic: address v4 truncated"))
    ok (v4 (from_be_bytes (slice 1 5 buf)) (u16_at buf 5), 7)

  unfoldable pub parse_v6 : List ℕ → Result TuicError (Address × ℕ)
  parse_v6 buf = do
    _ ← ensure (not (ltb (length buf) 19)) (bad (ascii "tuic: address v6 truncated"))
    ok (v6 (slice 1 17 buf) (u16_at buf 17), 19)

  unfoldable pub parse_address : List ℕ → Result TuicError (Address × ℕ)
  parse_address buf = do
    t ← ok_or (get_elem? buf 0) (bad (ascii "tuic: empty address"))
    if t == atyp_none
        then ok (no_address, 1)
        else (if t == atyp_domain
            then parse_domain buf
            else (if t == atyp_v4
                then parse_v4 buf
                else (if t == atyp_v6
                    then parse_v6 buf
                    else err (bad (ascii "tuic: bad address type")))))

pub record PacketHeader : Type 0 where
  pub assoc_id : ℕ
  pub pkt_id : ℕ
  pub frag_total : ℕ
  pub frag_id : ℕ
  pub size : ℕ
  pub addr : Address

pub data DatagramCommand : Type 0 where
  packet : PacketHeader → List ℕ → DatagramCommand
  heartbeat : DatagramCommand

module _ (u : Utf8) where
  unfoldable pub parse_packet_header : List ℕ → Result TuicError (PacketHeader × ℕ)
  parse_packet_header buf = do
    _ ← ensure (not (ltb (length buf) 8)) (bad (ascii "tuic: packet header too short"))
    (addr, addr_len) ← parse_address u (drop 8 buf)
    ok (
      record {
        assoc_id = u16_at buf 0;
        pkt_id = u16_at buf 2;
        frag_total = byte_at buf 4;
        frag_id = byte_at buf 5;
        size = u16_at buf 6;
        addr = addr;
      },
      8 + addr_len,
    )

  unfoldable pub parse_packet : List ℕ → Result TuicError DatagramCommand
  unfolding parse_packet_header
  parse_packet buf = do
    (hdr, off) ← parse_packet_header (drop 2 buf)
    _ ←
        ensure (leb (2 + off + hdr.size) (length buf))
          (bad (ascii "tuic: packet payload truncated"))
    ok (packet hdr (take hdr.size (drop (2 + off) buf)))

  unfoldable pub parse_datagram : List ℕ → Result TuicError DatagramCommand
  parse_datagram buf = do
    _ ← ensure (not (ltb (length buf) 2)) (bad (ascii "tuic: datagram too short"))
    _ ← ensure (byte_at buf 0 == version) (bad (ascii "tuic: datagram bad version"))
    if byte_at buf 1 == heartbeat_command
        then ok heartbeat
        else (if byte_at buf 1 == packet_command
            then parse_packet buf
            else err (bad (ascii "tuic: unsupported datagram command")))

-- The length of the payload is cut to 16 bits.
unfoldable pub encode_packet_datagram : ℕ → ℕ → Address → List ℕ → List ℕ
encode_packet_datagram assoc_id pkt_id addr payload =
    version
    ∷ packet_command
    ∷ (to_be_bytes 2 assoc_id
        ++ (to_be_bytes 2 pkt_id
            ++ 1
              ∷ 0
              ∷ (to_be_bytes 2 (length payload % 2 ^ 16) ++ (encode_address addr ++ payload))))
