-- ===== src/Inbound/Tests.antt =====
-- Concrete runs of the inbound codecs.
use rove.Base.{
  ℕ, zero, suc, ◌+◌, ◌-◌, ◌*◌, ◌/◌, ◌%◌, ◌^◌, ◌≤◌, ◌<◌, min, max, bit_and, bit_or, bit_xor,
}
use rove.Base.{
  ◌≡◌, refl, sym, ap, ◌∙◌, ◌≢◌, ◌↔◌, ◌⊎◌, inl, inr, Bool, true, false, not, ◌&&◌, ◌||◌, Option,
  none, some, List, [], ◌∷◌, ◌++◌, map, arith,
}
use rove.Base.{
  ltb, leb, ◌==◌, if◌then◌else◌, ltb→lt, lt→ltb, leb→le, le→leb, le→ltb_false, ==_iff, Bool-cases,
  Option-cases,
}
use rove.Base.{
  drop-append_add, All-take, All-append, replicate, length, get_elem?, set, take, drop, any, all,
  All, length-append, length-take, length-drop, take-append_length, drop-append_length,
  take-append-drop, any-append, length-set, get_elem?-set_self, get_elem?-set_ne,
}
use rove.Base.Bytes.{
  ascii, IsByte, to_le_bytes, to_be_bytes, from_le_bytes, from_be_bytes, slice, byte_at, xor_prefix,
  length-to_le_bytes, length-to_be_bytes, from_le_bytes-to_le_bytes, from_be_bytes-to_be_bytes,
  to_le_bytes-IsByte, length-xor_prefix, xor_prefix_twice, xor_prefix-append,
}
use rove.Base.Eq.{nat_eq, list_eq}
use rove.Base.Bytes.{ascii}
use rove.Base.Result.{ok}
use rove.Net.StandIns.{ascii_only}
use rove.Inbound.Tuic.{
  Address, domain, v4, parse_datagram, encode_packet_datagram, packet, parse_address, read_address,
  encode_address,
}
use rove.Inbound.Tuic.RoundTrip.{sent_header, parse_datagram-encode_packet_datagram}
use rove.Inbound.Tuic.Readers.{Agree, parse_address-read_address}

parse_datagram-encode_packet_datagram_example :
    parse_datagram ascii_only
      (encode_packet_datagram 7 9 (domain (ascii "a.b") 443) (1 ∷ 2 ∷ 3 ∷ []))
    ≡ ok (
        packet
          (sent_header ascii_only 7 9
            (domain (ascii "a.b") 443)
            (1 ∷ 2 ∷ 3 ∷ [])
            (omega arith)
            (omega arith)
            (omega arith))
          (take (3 % 2 ^ 16) (1 ∷ 2 ∷ 3 ∷ [])))
parse_datagram-encode_packet_datagram_example =
    parse_datagram-encode_packet_datagram ascii_only 7 9 (domain (ascii "a.b") 443) (1 ∷ 2 ∷ 3 ∷ [])
      (omega arith) (omega arith) (omega arith)

-- A domain of two bytes with port 443, and one byte behind it.
abbrev some_bytes : List ℕ
some_bytes = 0 ∷ 2 ∷ b'a' ∷ b'b' ∷ 1 ∷ 187 ∷ 9 ∷ []

some_address : parse_address ascii_only some_bytes ≡ ok (domain (ascii "ab") 443, 6)
unfolding parse_address rove.Inbound.Tuic.parse_domain rove.Base.Bytes.u16_at from_be_bytes
some_address = refl

parse_address-read_address_example :
    Agree some_bytes (parse_address ascii_only some_bytes) (read_address ascii_only some_bytes)
parse_address-read_address_example = parse_address-read_address ascii_only some_bytes
