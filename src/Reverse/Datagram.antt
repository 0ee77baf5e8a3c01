-- ===== src/Reverse/Datagram.antt =====
-- The datagrams of the reverse hop, src/reverse/frame.rs: one UDP packet with its session and its
-- destination.
pub mod RoundTrip
use rove.Base.{
  ℕ, zero, suc, ◌+◌, ◌-◌, ◌*◌, ◌/◌, ◌%◌, ◌^◌, ◌≤◌, ◌<◌, min, max, bit_and, bit_or, bit_xor,
}
use rove.Base.{
  ◌≡◌, refl, sym, ap, ◌∙◌, ◌≢◌, ◌↔◌, ◌⊎◌, inl, inr, Bool, true, false, not, ◌&&◌, ◌||◌, Option,
  none, some, List, [], ◌∷◌, ◌++◌, map, arith,
}
use rove.Base.{
  ltb, leb, ◌==◌, if◌then◌else◌, ltb→lt, lt→ltb, leb→le, le→leb, le→ltb_false, ==_iff, Bool-cases,
  Option-cases,
}
use rove.Base.{
  drop-append_add, All-take, All-append, replicate, length, get_elem?, set, take, drop, any, all,
  All, length-append, length-take, length-drop, take-append_length, drop-append_length,
  take-append-drop, any-append, length-set, get_elem?-set_self, get_elem?-set_ne,
}
use rove.Base.Bytes.{
  ascii, IsByte, to_le_bytes, to_be_bytes, from_le_bytes, from_be_bytes, slice, byte_at, xor_prefix,
  length-to_le_bytes, length-to_be_bytes, from_le_bytes-to_le_bytes, from_be_bytes-to_be_bytes,
  to_le_bytes-IsByte, length-xor_prefix, xor_prefix_twice, xor_prefix-append,
}
use rove.Base.Eq.{Eq, same, same_refl, list_beq, list_beq_iff, member, nat_eq, list_eq}
use rove.Base.Bytes.{ascii}
use rove.Base.Text.{
  Text, is_empty, to_ascii_lowercase, trim, trim_matches, strip_prefix, contains_text, split_on,
  split_once, join_with,
}
use rove.Base.Text.Split.{IsFree, split_on-IsFree, split_on-join_with}
use rove.Base.Result.{Result, ok, err, ◌>>=◌, ensure, ok_or}
use rove.Base.Assoc.{find, has_key, insert}
use rove.Base.Bytes.{u16_at}
use rove.Base.Text.Utf8.{Utf8}
use rove.Net.{IpAddr, ipv4, ipv6, AddrText}
use rove.Reverse.Frame.{FrameError, malformed}

abbrev pub atyp_v4 : ℕ
atyp_v4 = 0x01

abbrev pub atyp_domain : ℕ
atyp_domain = 0x03

abbrev pub atyp_v6 : ℕ
atyp_v6 = 0x04

pub record Datagram : Type 0 where
  pub session_id : ℕ
  pub host : Text
  pub port : ℕ
  pub payload : List ℕ

module _ (addr : AddrText) where
  -- The type tag and the destination; a domain's length has one byte.
  unfoldable pub encode_host : Text → Option (List ℕ)
  encode_host host = elim (addr.parse_ip host) [
    | some ip ↦ elim ip [
      | ipv4 v4 ↦ some (atyp_v4 ∷ to_be_bytes 4 v4)
      | ipv6 octets ↦ some (atyp_v6 ∷ octets)
    ]
    | none ↦ if ltb 255 (length host) then none else some (atyp_domain ∷ length host ∷ host)
  ]

  unfoldable pub encode_datagram : ℕ → Text → ℕ → List ℕ → Option (List ℕ)
  encode_datagram session_id host port payload = elim (encode_host host) [
    | none ↦ none
    | some dst ↦ some (to_be_bytes 4 session_id ++ (dst ++ (to_be_bytes 2 port ++ payload)))
  ]

module _ (addr : AddrText) (u : Utf8) where
  -- The destination at byte 5, and the offset behind it.
  unfoldable pub host_v4 : List ℕ → Result FrameError (Text × ℕ)
  host_v4 buf = do
    _ ← ensure (not (ltb (length buf) 9)) (malformed (ascii "datagram truncated ipv4"))
    ok (addr.ip_to_string (ipv4 (from_be_bytes (slice 5 9 buf))), 9)

  unfoldable pub host_v6 : List ℕ → Result FrameError (Text × ℕ)
  host_v6 buf = do
    _ ← ensure (not (ltb (length buf) 21)) (malformed (ascii "datagram truncated ipv6"))
    ok (addr.ip_to_string (ipv6 (slice 5 21 buf)), 21)

  unfoldable pub host_domain : List ℕ → Result FrameError (Text × ℕ)
  host_domain buf = do
    len ← ok_or (get_elem? buf 5) (malformed (ascii "datagram missing domain len"))
    _ ← ensure (not (len == 0)) (malformed (ascii "datagram empty domain"))
    _ ← ensure (not (ltb (length buf) (6 + len))) (malformed (ascii "datagram truncated domain"))
    ok (u.from_utf8_lossy (take len (drop 6 buf)), 6 + len)

  unfoldable pub parse_host : List ℕ → ℕ → Result FrameError (Text × ℕ)
  unfolding host_v4 host_v6 host_domain
  parse_host buf atyp =
      if atyp == atyp_v4
      then host_v4 buf
      else (if atyp == atyp_v6
          then host_v6 buf
          else (if atyp == atyp_domain
              then host_domain buf
              else err (malformed (ascii "datagram bad atyp"))))

  unfoldable pub parse_datagram : List ℕ → Result FrameError Datagram
  parse_datagram buf = do
    _ ← ensure (not (ltb (length buf) 5)) (malformed (ascii "datagram too short for header"))
    let session_id = from_be_bytes (slice 0 4 buf)
    (host, off) ← parse_host buf (byte_at buf 4)
    _ ← ensure (not (ltb (length buf) (off + 2))) (malformed (ascii "datagram truncated port"))
    ok record {
      session_id = session_id;
      host = host;
      port = u16_at buf off;
      payload = drop (off + 2) buf;
    }
