-- ===== src/Inbound/Tuic/RoundTrip.antt =====
-- Addresses and packets of TUIC read back.
use rove.Base.{ℕ, ◌+◌, ◌%◌, ◌^◌, ◌<◌, min}
use rove.Base.{◌≡◌, refl, sym, ap, ◌∙◌, true, false, List, [], ◌∷◌, ◌++◌, arith}
use rove.Base.{ltb, leb, le→leb, le→ltb_false}
use rove.Base.{
  drop-append_add, length, take, drop, length-append, length-take, take-append_length,
  drop-append_length,
}
use rove.Base.Bytes.{to_be_bytes, length-to_be_bytes, from_be_bytes-to_be_bytes}
use rove.Base.Eq.{nat_eq, list_eq}
use rove.Base.Result.{ok}
use rove.Base.Bytes.{u16_at, u16_at-append}
use mathlib.Core.List.{append_assoc}
use rove.Base.Text.Utf8.{Utf8}
use rove.Inbound.Tuic.{
  Address, no_address, domain, v4, v6, encode_address, parse_address, parse_domain, parse_v4,
  parse_v6, PacketHeader, packet, parse_packet_header, parse_packet, parse_datagram,
  encode_packet_datagram,
}

-- The widths of the source's types.
abbrev pub IsSized : Address → Type 0
IsSized no_address = Unit
IsSized (domain host port) = port < 2 ^ 16
IsSized (v4 ip port) = (ip < 2 ^ 32) × (port < 2 ^ 16)
IsSized (v6 ip port) = (length ip ≡ 16) × (port < 2 ^ 16)

module _ (u : Utf8) where
  -- What the peer reads: of a domain its first 255 bytes.
  abbrev pub seen : Address → Address
  seen no_address = no_address
  seen (domain host port) = domain (u.from_utf8_lossy (take (min (length host) 255) host)) port
  seen (v4 ip port) = v4 ip port
  seen (v6 ip port) = v6 ip port

  -- A field and a port behind a prefix.
  module _ (prefix field rest : List ℕ) (port j k : ℕ) (before : length prefix ≡ j)
      (size : length field ≡ k) (fits : port < 2 ^ 16) where
    abbrev buf : List ℕ
    buf = (prefix ++ (field ++ to_be_bytes 2 port)) ++ rest

    buf-parts : buf ≡ (prefix ++ field) ++ (to_be_bytes 2 port ++ rest)
    buf-parts =
        ap (λ b. b ++ rest) (sym (append_assoc prefix field (to_be_bytes 2 port)))
        ∙ append_assoc (prefix ++ field) (to_be_bytes 2 port) rest

    length-front : length (prefix ++ field) ≡ j + k
    length-front = omega (arith, length-append prefix field)

    length-written : length (prefix ++ (field ++ to_be_bytes 2 port)) ≡ j + k + 2
    length-written = omega (
      arith,
      length-append prefix (field ++ to_be_bytes 2 port),
      length-append field (to_be_bytes 2 port),
      length-to_be_bytes 2 port,
    )

    long_enough : (n : ℕ) → n ≡ j + k + 2 → ltb (length buf) n ≡ false
    long_enough n e = le→ltb_false (length buf) n (
        omega (arith, length-append (prefix ++ (field ++ to_be_bytes 2 port)) rest, length-written))

    field_found : take k (drop j buf) ≡ field
    field_found =
        ap (λ b. take k (drop j b))
          (buf-parts ∙ append_assoc prefix field (to_be_bytes 2 port ++ rest))
        ∙ ap (take k) (drop-append_length j prefix (field ++ (to_be_bytes 2 port ++ rest)) before)
        ∙ take-append_length k field (to_be_bytes 2 port ++ rest) size

    port_found : u16_at buf (j + k) ≡ port
    port_found =
        ap (λ b. u16_at b (j + k)) buf-parts
        ∙ u16_at-append (prefix ++ field) rest (j + k) port length-front fits

  parse_address-encode_address :
      (a : Address) (rest : List ℕ)
      → IsSized a
      → parse_address u (encode_address a ++ rest) ≡ ok (seen a, length (encode_address a))
  unfolding parse_address parse_v4 parse_v6 parse_domain encode_address
  parse_address-encode_address no_address rest h = refl
  parse_address-encode_address (domain host port) rest h =
      let l = min (length host) 255 in
      let name = take l host in
      let size : length name ≡ l = omega (arith, length-take l host) in
      rw
        (
          long_enough (0 ∷ l ∷ []) name rest port 2 l refl size h (2 + l + 2) (omega arith),
          field_found (0 ∷ l ∷ []) name rest port 2 l refl size h,
          port_found (0 ∷ l ∷ []) name rest port 2 l refl size h,
          length-written (0 ∷ l ∷ []) name rest port 2 l refl size h,
        )
        refl
  parse_address-encode_address (v4 ip port) rest (hi, hp) =
      let field = to_be_bytes 4 ip in
      let size = length-to_be_bytes 4 ip in
      rw
        (
          long_enough (1 ∷ []) field rest port 1 4 refl size hp 7 (omega arith),
          field_found (1 ∷ []) field rest port 1 4 refl size hp,
          port_found (1 ∷ []) field rest port 1 4 refl size hp,
          length-written (1 ∷ []) field rest port 1 4 refl size hp,
          from_be_bytes-to_be_bytes 4 ip hi,
        )
        refl
  parse_address-encode_address (v6 ip port) rest (hi, hp) =
      rw
        (
          long_enough (2 ∷ []) ip rest port 1 16 refl hi hp 19 (omega arith),
          field_found (2 ∷ []) ip rest port 1 16 refl hi hp,
          port_found (2 ∷ []) ip rest port 1 16 refl hi hp,
          length-written (2 ∷ []) ip rest port 1 16 refl hi hp,
        )
        refl

  -- The bytes of a packet in front of its address.
  abbrev header_bytes : ℕ → ℕ → ℕ → List ℕ
  header_bytes assoc_id pkt_id size =
      to_be_bytes 2 assoc_id ++ (to_be_bytes 2 pkt_id ++ 1 ∷ 0 ∷ to_be_bytes 2 size)

  module _ (assoc_id pkt_id : ℕ) (addr : Address) (payload : List ℕ) (ha : assoc_id < 2 ^ 16)
      (hp : pkt_id < 2 ^ 16) (sized : IsSized addr) where
    -- The header that the peer reads.
    abbrev pub sent_header : PacketHeader
    sent_header = record {
      assoc_id = assoc_id;
      pkt_id = pkt_id;
      frag_total = 1;
      frag_id = 0;
      size = length payload % 2 ^ 16;
      addr = seen addr;
    }

    abbrev sent : List ℕ
    sent =
        header_bytes assoc_id pkt_id (length payload % 2 ^ 16) ++ (encode_address addr ++ payload)

    parse_packet_header-sent :
        parse_packet_header u sent ≡ ok (sent_header, 8 + length (encode_address addr))
    unfolding parse_packet_header to_be_bytes
    parse_packet_header-sent =
        let back = encode_address addr ++ payload in
        let size = length payload % 2 ^ 16 in
        let long : ltb (length sent) 8 ≡ false = le→ltb_false (length sent) 8 (omega arith) in
        rw
          (
            long,
            u16_at-append [] (to_be_bytes 2 pkt_id ++ 1 ∷ 0 ∷ (to_be_bytes 2 size ++ back)) 0
                assoc_id refl ha,
            u16_at-append (to_be_bytes 2 assoc_id) (1 ∷ 0 ∷ (to_be_bytes 2 size ++ back)) 2 pkt_id
                refl hp,
            u16_at-append (to_be_bytes 2 assoc_id ++ (to_be_bytes 2 pkt_id ++ 1 ∷ 0 ∷ [])) back 6
                size refl (omega arith),
            parse_address-encode_address addr payload sized,
          )
          refl

    parse_packet-sent :
        parse_packet u (5 ∷ 2 ∷ sent)
        ≡ ok (packet sent_header (take (length payload % 2 ^ 16) payload))
    unfolding parse_packet to_be_bytes
    parse_packet-sent =
        let off = 8 + length (encode_address addr) in
        let fits : leb (2 + off + length payload % 2 ^ 16) (length (5 ∷ 2 ∷ sent)) ≡ true =
          le→leb (2 + off + length payload % 2 ^ 16) (length (5 ∷ 2 ∷ sent))
            (omega (arith, length-append (encode_address addr) payload)) in
        let rest : drop (2 + off) (5 ∷ 2 ∷ sent) ≡ payload =
          drop-append_add (5 ∷ 2 ∷ header_bytes assoc_id pkt_id (length payload % 2 ^ 16))
            (encode_address addr ++ payload) (length (encode_address addr)) (2 + off) (omega arith)
          ∙ drop-append_length (length (encode_address addr)) (encode_address addr) payload refl in
        rw (parse_packet_header-sent, fits, rest) refl

    -- A packet is parsed from its datagram with the same ids, one fragment, the address as far as
    -- it is written, and the first bytes of the payload: as many as its length modulo 2^16, which
    -- is the whole payload when that is shorter than 65536 bytes.
    pub parse_datagram-encode_packet_datagram :
        parse_datagram u (encode_packet_datagram assoc_id pkt_id addr payload)
        ≡ ok (packet sent_header (take (length payload % 2 ^ 16) payload))
    unfolding parse_datagram encode_packet_datagram to_be_bytes
    parse_datagram-encode_packet_datagram =
        let long : ltb (length (5 ∷ 2 ∷ sent)) 2 ≡ false =
          le→ltb_false (length (5 ∷ 2 ∷ sent)) 2 (omega arith) in
        rw long parse_packet-sent
