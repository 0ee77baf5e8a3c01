-- ===== src/Ingress/Datagram/RoundTrip.antt =====
-- Datagrams and identifiers read back.
use rove.Base.{ℕ, zero, suc, ◌+◌, ◌^◌, ◌<◌}
use rove.Base.{◌≡◌, refl, sym, ap, ◌∙◌, false, some, List, [], ◌∷◌, ◌++◌, arith}
use rove.Base.{ltb, le→ltb_false}
use rove.Base.{
  drop-append_add, length, get_elem?, take, drop, length-append, take-append_length,
  drop-append_length,
}
use rove.Base.Bytes.{
  to_be_bytes, from_be_bytes, slice, length-to_be_bytes, from_be_bytes-to_be_bytes,
}
use rove.Base.Eq.{nat_eq, list_eq}
use rove.Base.Result.{ok}
use rove.Base.Bytes.{u16_at, u16_at-append}
use mathlib.Core.List.{append_assoc}
use rove.Net.{IpAddr, ipv4, ipv6, SocketAddr, IsAddr, new_socket}
use rove.Ingress.Datagram.{
  Id128, Datagram, uplink, downlink, encode_addr, encode_datagram, decode_v4, decode_v6,
  decode_addr, parse_uplink, parse_datagram,
}

-- The fields that the types of the source bound.
abbrev pub IsSized : Datagram → Type 0
IsSized (uplink lease_id flow_id a payload) =
    (lease_id < 2 ^ 64) × (length flow_id ≡ 16) × IsAddr a.ip × (a.port < 2 ^ 16)
IsSized (downlink lease_id flow_id payload) = (lease_id < 2 ^ 64) × (length flow_id ≡ 16)

get_elem?-append :
    (front : List ℕ) (x : ℕ) (ys : List ℕ) (n : ℕ)
    → length front ≡ n
    → get_elem? (front ++ x ∷ ys) n ≡ some x
get_elem?-append [] x ys zero h = refl
get_elem?-append [] x ys (suc n) h = absurd (omega arith)
get_elem?-append (y ∷ front) x ys zero h = absurd (omega arith)
get_elem?-append (y ∷ front) x ys (suc n) h = get_elem?-append front x ys n (omega arith)

-- An address of some octets behind 28 bytes: what is found where.
module _ (front octets rest : List ℕ) (kind port k : ℕ) (before : length front ≡ 28)
    (size : length octets ≡ k) (fits : port < 2 ^ 16) where
  abbrev buf : List ℕ
  buf = front ++ ((kind ∷ (octets ++ to_be_bytes 2 port)) ++ rest)

  length-front : length (front ++ kind ∷ octets) ≡ 29 + k
  length-front = omega (arith, length-append front (kind ∷ octets))

  buf-parts : buf ≡ (front ++ kind ∷ octets) ++ (to_be_bytes 2 port ++ rest)
  buf-parts =
      ap (λ t. front ++ kind ∷ t) (append_assoc octets (to_be_bytes 2 port) rest)
      ∙ sym (append_assoc front (kind ∷ octets) (to_be_bytes 2 port ++ rest))

  length-buf : length buf ≡ 31 + k + length rest
  length-buf =
      ap length buf-parts
      ∙ omega (
        arith,
        length-append (front ++ kind ∷ octets) (to_be_bytes 2 port ++ rest),
        length-append (to_be_bytes 2 port) rest,
        length-to_be_bytes 2 port,
        length-front,
      )

  kind_found : get_elem? buf 28 ≡ some kind
  kind_found = get_elem?-append front kind ((octets ++ to_be_bytes 2 port) ++ rest) 28 before

  octets_found : take k (drop 29 buf) ≡ octets
  octets_found =
      ap (take k) (
        drop-append_add front (kind ∷ (octets ++ to_be_bytes 2 port) ++ rest) 1 29 (omega arith)
        ∙ append_assoc octets (to_be_bytes 2 port) rest)
      ∙ take-append_length k octets (to_be_bytes 2 port ++ rest) size

  port_found : u16_at buf (29 + k) ≡ port
  port_found =
      ap (λ b. u16_at b (29 + k)) buf-parts
      ∙ u16_at-append (front ++ kind ∷ octets) rest (29 + k) port length-front fits

  rest_found : drop (31 + k) buf ≡ rest
  rest_found =
      ap (drop (31 + k)) buf-parts
      ∙ drop-append_add (front ++ kind ∷ octets) (to_be_bytes 2 port ++ rest) 2 (31 + k)
          (omega (arith, length-front))
      ∙ drop-append_length 2 (to_be_bytes 2 port) rest (length-to_be_bytes 2 port)

-- An address is read back from behind any 28 bytes.
decode_addr-encode_addr :
    (front : List ℕ) (ip : IpAddr) (port flowinfo scope_id : ℕ) (rest : List ℕ)
    → length front ≡ 28
    → IsAddr ip
    → port < 2 ^ 16
    → (size : ℕ) × (decode_addr
          (front
            ++ (encode_addr
                  (record { ip = ip; port = port; flowinfo = flowinfo; scope_id = scope_id })
                ++ rest))
          28
        ≡ ok (new_socket ip port, size))
      × (drop size (
            front
            ++ (encode_addr
                  (record { ip = ip; port = port; flowinfo = flowinfo; scope_id = scope_id })
                ++ rest))
          ≡ rest)
unfolding decode_addr decode_v4 decode_v6 encode_addr
decode_addr-encode_addr front (ipv4 v4) port flowinfo scope_id rest before ha fits =
    let octets = to_be_bytes 4 v4 in
    let size = length-to_be_bytes 4 v4 in
    let long =
      le→ltb_false (length (buf front octets rest 4 port 4 before size fits)) 35
        (omega (arith, length-buf front octets rest 4 port 4 before size fits)) in
    (
      35,
      rw
          (
            kind_found front octets rest 4 port 4 before size fits,
            long,
            octets_found front octets rest 4 port 4 before size fits,
            port_found front octets rest 4 port 4 before size fits,
            from_be_bytes-to_be_bytes 4 v4 ha,
          )
          refl,
      rest_found front octets rest 4 port 4 before size fits,
    )
decode_addr-encode_addr front (ipv6 octets) port flowinfo scope_id rest before (size, bytes) fits =
    let long =
      le→ltb_false (length (buf front octets rest 6 port 16 before size fits)) 47
        (omega (arith, length-buf front octets rest 6 port 16 before size fits)) in
    (
      47,
      rw
          (
            kind_found front octets rest 6 port 16 before size fits,
            long,
            octets_found front octets rest 6 port 16 before size fits,
            port_found front octets rest 6 port 16 before size fits,
          )
          refl,
      rest_found front octets rest 6 port 16 before size fits,
    )

-- The first 28 bytes of a datagram.
abbrev fixed_part : ℕ → ℕ → Id128 → List ℕ
fixed_part kind lease_id flow_id = (82 ∷ 73 ∷ 1 ∷ kind ∷ to_be_bytes 8 lease_id) ++ flow_id

module _ (kind lease_id : ℕ) (flow_id rest : List ℕ) (small : lease_id < 2 ^ 64)
    (size : length flow_id ≡ 16) where
  length-fixed_part : length (fixed_part kind lease_id flow_id) ≡ 28
  length-fixed_part = omega (
    arith,
    length-append (82 ∷ 73 ∷ 1 ∷ kind ∷ to_be_bytes 8 lease_id) flow_id,
    length-to_be_bytes 8 lease_id,
  )

  long_enough : ltb (length (fixed_part kind lease_id flow_id ++ rest)) 28 ≡ false
  long_enough =
      le→ltb_false (length (fixed_part kind lease_id flow_id ++ rest)) 28
        (omega (arith, length-append (fixed_part kind lease_id flow_id) rest, length-fixed_part))

  lease_found : from_be_bytes (slice 4 12 (fixed_part kind lease_id flow_id ++ rest)) ≡ lease_id
  lease_found =
      ap (λ b. from_be_bytes (take 8 (drop 4 b)))
        (append_assoc (82 ∷ 73 ∷ 1 ∷ kind ∷ to_be_bytes 8 lease_id) flow_id rest)
      ∙ ap from_be_bytes (
          take-append_length 8 (to_be_bytes 8 lease_id) (flow_id ++ rest)
            (length-to_be_bytes 8 lease_id))
      ∙ from_be_bytes-to_be_bytes 8 lease_id small

  flow_found : slice 12 28 (fixed_part kind lease_id flow_id ++ rest) ≡ flow_id
  flow_found =
      ap (λ b. take 16 (drop 12 b))
        (append_assoc (82 ∷ 73 ∷ 1 ∷ kind ∷ to_be_bytes 8 lease_id) flow_id rest)
      ∙ ap (take 16) (
          drop-append_length 8 (to_be_bytes 8 lease_id) (flow_id ++ rest)
            (length-to_be_bytes 8 lease_id))
      ∙ take-append_length 16 flow_id rest size

  rest_behind : drop 28 (fixed_part kind lease_id flow_id ++ rest) ≡ rest
  rest_behind = drop-append_length 28 (fixed_part kind lease_id flow_id) rest length-fixed_part

parse_uplink-encode_addr :
    (front : List ℕ) (lease_id : ℕ) (flow_id : Id128) (a : SocketAddr) (payload : List ℕ)
    → length front ≡ 28
    → IsAddr a.ip
    → a.port < 2 ^ 16
    → parse_uplink lease_id flow_id (front ++ (encode_addr a ++ payload))
      ≡ ok (uplink lease_id flow_id (new_socket a.ip a.port) payload)
unfolding parse_uplink
parse_uplink-encode_addr front lease_id flow_id a payload before ip port =
    let (size, decoded, rest) =
      decode_addr-encode_addr front a.ip a.port a.flowinfo a.scope_id payload before ip port in
    rw (decoded, rest) refl

-- What the wire carries of a datagram: the flow information and the scope of an IPv6 client address
-- are not written.
abbrev pub unscoped : Datagram → Datagram
unscoped (uplink lease_id flow_id a payload) =
    uplink lease_id flow_id (new_socket a.ip a.port) payload
unscoped (downlink lease_id flow_id payload) = downlink lease_id flow_id payload

-- A datagram whose lease id, flow id, address and port have the widths of their types is parsed
-- from its bytes as the datagram that was encoded, in both directions and for both address
-- families, except that the flow information and the scope of an IPv6 client address become 0.
pub encode_datagram_parses :
    (d : Datagram) → IsSized d → parse_datagram (encode_datagram d) ≡ ok (unscoped d)
unfolding parse_datagram encode_datagram to_be_bytes
encode_datagram_parses (downlink lease_id flow_id payload) (small, size) =
    let bytes = fixed_part 2 lease_id flow_id ++ payload in
    rw
      (
        sym (append_assoc (82 ∷ 73 ∷ 1 ∷ 2 ∷ to_be_bytes 8 lease_id) flow_id payload),
        long_enough 2 lease_id flow_id payload small size,
        lease_found 2 lease_id flow_id payload small size,
        flow_found 2 lease_id flow_id payload small size,
        rest_behind 2 lease_id flow_id payload small size,
      )
      refl
encode_datagram_parses (uplink lease_id flow_id a payload) (small, size, ip, port) =
    let rest = encode_addr a ++ payload in
    rw
      (
        sym (append_assoc (82 ∷ 73 ∷ 1 ∷ 1 ∷ to_be_bytes 8 lease_id) flow_id rest),
        long_enough 1 lease_id flow_id rest small size,
        lease_found 1 lease_id flow_id rest small size,
        flow_found 1 lease_id flow_id rest small size,
      )
      (parse_uplink-encode_addr (fixed_part 1 lease_id flow_id) lease_id flow_id a payload
        (length-fixed_part 1 lease_id flow_id rest small size) ip port)
