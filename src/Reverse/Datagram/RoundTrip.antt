-- ===== src/Reverse/Datagram/RoundTrip.antt =====
-- Datagrams read back, and what a parsed datagram is a part of.
use rove.Base.{ℕ, ◌+◌, ◌^◌, ◌≤◌, ◌<◌}
use rove.Base.{
  ◌≡◌, refl, sym, ap, ◌∙◌, ◌≢◌, ◌⊎◌, inl, inr, true, false, not, Option, none, some, List, [], ◌∷◌,
  ◌++◌, arith,
}
use rove.Base.{ltb, ◌==◌, ltb→lt, le→ltb_false, Bool-cases, Option-cases}
use rove.Base.{drop-append_add, length, drop, length-append, take-append_length, drop-append_length}
use rove.Base.Bytes.{
  to_be_bytes, from_be_bytes, slice, byte_at, length-to_be_bytes, from_be_bytes-to_be_bytes,
}
use rove.Base.Eq.{nat_eq, list_eq}
use rove.Base.Text.{Text}
use rove.Base.Result.{ok}
use rove.Base.Bytes.{u16_at, u16_at-append}
use mathlib.Core.List.{append_assoc}
use rove.Base.Text.Utf8.{Utf8}
use rove.Net.{IpAddr, ipv4, ipv6, AddrText}
use rove.Reverse.Datagram.{
  Datagram, encode_host, encode_datagram, parse_host, parse_datagram, host_v4, host_v6, host_domain,
}

module _ (addr : AddrText) (u : Utf8) where
  -- The text of the host that the peer sees: an address in its canonical form.
  abbrev pub seen_host : Text → Text
  seen_host host = elim (addr.parse_ip host) [ none ↦ host | some ip ↦ addr.ip_to_string ip ]

  seen_host-parse :
      (host : Text) (o : Option IpAddr)
      → addr.parse_ip host ≡ o
      → seen_host host ≡ elim o [ none ↦ host | some ip ↦ addr.ip_to_string ip ]
  seen_host-parse host o e = ap (λ r. elim r [ none ↦ host | some ip ↦ addr.ip_to_string ip ]) e

  -- What is behind the destination is read from there.
  parse_tail :
      (session_id port : ℕ) (dst payload : List ℕ) (host : Text) (off : ℕ)
      → session_id < 2 ^ 32
      → port < 2 ^ 16
      → off ≡ 4 + length dst
      → 1 ≤ length dst
      → parse_host addr u
          (to_be_bytes 4 session_id ++ (dst ++ (to_be_bytes 2 port ++ payload)))
          (byte_at (to_be_bytes 4 session_id ++ (dst ++ (to_be_bytes 2 port ++ payload))) 4)
        ≡ ok (host, off)
      → parse_datagram addr u (to_be_bytes 4 session_id ++ (dst ++ (to_be_bytes 2 port ++ payload)))
        ≡ ok record { session_id = session_id; host = host; port = port; payload = payload }
  unfolding parse_datagram
  parse_tail session_id port dst payload host off hs hp size some_dst h =
      let buf = to_be_bytes 4 session_id ++ (dst ++ (to_be_bytes 2 port ++ payload)) in
      let front = to_be_bytes 4 session_id ++ dst in
      let reach : length front ≡ off =
        omega
          (arith, length-append (to_be_bytes 4 session_id) dst, length-to_be_bytes 4 session_id) in
      let parts : buf ≡ front ++ (to_be_bytes 2 port ++ payload) =
        sym (append_assoc (to_be_bytes 4 session_id) dst (to_be_bytes 2 port ++ payload)) in
      let total : length buf ≡ off + 2 + length payload = omega (
        arith,
        length-append (to_be_bytes 4 session_id) (dst ++ (to_be_bytes 2 port ++ payload)),
        length-append dst (to_be_bytes 2 port ++ payload),
        length-append (to_be_bytes 2 port) payload,
        length-to_be_bytes 2 port,
        length-to_be_bytes 4 session_id,
      ) in
      let long : ltb (length buf) 5 ≡ false = le→ltb_false (length buf) 5 (omega arith) in
      let enough : ltb (length buf) (off + 2) ≡ false =
        le→ltb_false (length buf) (off + 2) (omega arith) in
      let id : from_be_bytes (slice 0 4 buf) ≡ session_id =
        ap from_be_bytes
          (take-append_length 4 (to_be_bytes 4 session_id) _ (length-to_be_bytes 4 session_id))
        ∙ from_be_bytes-to_be_bytes 4 session_id hs in
      let read : u16_at buf off ≡ port =
        ap (λ b. u16_at b off) parts ∙ u16_at-append front payload off port reach hp in
      let rest : drop (off + 2) buf ≡ payload =
        ap (drop (off + 2)) parts
        ∙ drop-append_add front (to_be_bytes 2 port ++ payload) 2 (off + 2) (omega arith)
        ∙ drop-append_length 2 (to_be_bytes 2 port) payload (length-to_be_bytes 2 port) in
      rw (long, h, enough, id, read, rest) refl

  parse_host-v4 :
      (session_id v4 : ℕ) (rest : List ℕ)
      → v4 < 2 ^ 32
      → parse_host addr u
          (to_be_bytes 4 session_id ++ ((0x01 ∷ to_be_bytes 4 v4) ++ rest))
          (byte_at (to_be_bytes 4 session_id ++ ((0x01 ∷ to_be_bytes 4 v4) ++ rest)) 4)
        ≡ ok (addr.ip_to_string (ipv4 v4), 9)
  unfolding parse_host host_v4 to_be_bytes
  parse_host-v4 session_id v4 rest h =
      let buf = to_be_bytes 4 session_id ++ ((0x01 ∷ to_be_bytes 4 v4) ++ rest) in
      let enough : ltb (length buf) 9 ≡ false = le→ltb_false (length buf) 9 (omega arith) in
      rw enough (ap (λ a. ok (addr.ip_to_string (ipv4 a), 9)) (from_be_bytes-to_be_bytes 4 v4 h))

  parse_host-v6 :
      (session_id : ℕ) (octets rest : List ℕ)
      → length octets ≡ 16
      → parse_host addr u
          (to_be_bytes 4 session_id ++ ((0x04 ∷ octets) ++ rest))
          (byte_at (to_be_bytes 4 session_id ++ ((0x04 ∷ octets) ++ rest)) 4)
        ≡ ok (addr.ip_to_string (ipv6 octets), 21)
  unfolding parse_host host_v6 to_be_bytes
  parse_host-v6 session_id octets rest h =
      let buf = to_be_bytes 4 session_id ++ ((0x04 ∷ octets) ++ rest) in
      let enough : ltb (length buf) 21 ≡ false =
        le→ltb_false (length buf) 21 (omega (arith, length-append octets rest)) in
      rw (enough, take-append_length 16 octets rest h) refl

  parse_host-domain :
      (session_id : ℕ) (host rest : List ℕ)
      → host ≢ []
      → u.valid host ≡ true
      → parse_host addr u
          (to_be_bytes 4 session_id ++ ((0x03 ∷ length host ∷ host) ++ rest))
          (byte_at (to_be_bytes 4 session_id ++ ((0x03 ∷ length host ∷ host) ++ rest)) 4)
        ≡ ok (host, 6 + length host)
  unfolding parse_host host_domain to_be_bytes
  parse_host-domain session_id [] rest filled v = absurd (filled refl)
  parse_host-domain session_id (c ∷ host) rest filled v =
      let buf = to_be_bytes 4 session_id ++ ((0x03 ∷ length (c ∷ host) ∷ c ∷ host) ++ rest) in
      let enough : ltb (length buf) (6 + length (c ∷ host)) ≡ false =
        le→ltb_false (length buf) (6 + length (c ∷ host))
          (omega (arith, length-append host rest)) in
      let some_byte : not (length (c ∷ host) == 0) ≡ true = ground arith in
      rw
        (
          some_byte,
          enough,
          take-append_length (length (c ∷ host)) (c ∷ host) rest refl,
          u.from_utf8_lossy-valid (c ∷ host) v,
        )
        refl

  abbrev tail_of : ℕ → List ℕ → List ℕ
  tail_of port payload = to_be_bytes 2 port ++ payload

  abbrev sent_bytes : ℕ → List ℕ → ℕ → List ℕ → List ℕ
  sent_bytes session_id dst port payload = to_be_bytes 4 session_id ++ (dst ++ tail_of port payload)

  module _ (session_id : ℕ) (host : Text) (port : ℕ) (payload : List ℕ) where
    -- The fields that the peer reads.
    abbrev pub seen : Datagram
    seen = record { session_id = session_id; host = seen_host host; port = port; payload = payload }

    abbrev pub Unsendable : Type 0
    Unsendable =
        (addr.parse_ip host ≡ none)
        × (255 < length host)
        × (encode_datagram addr session_id host port payload ≡ none)

    abbrev pub IsRead : Type 0
    IsRead =
        (bytes : List ℕ) × (encode_datagram addr session_id host port payload ≡ some bytes)
        × (parse_datagram addr u bytes ≡ ok seen)

    as_seen : (t : Text) → seen_host host ≡ t → record seen { host = t } ≡ seen
    as_seen t e = ap (λ h. record seen { host = h }) (sym e)

    domain_case :
        session_id < 2 ^ 32
        → port < 2 ^ 16
        → host ≢ []
        → u.valid host ≡ true
        → addr.parse_ip host ≡ none
        → Unsendable ⊎ IsRead
    unfolding encode_datagram encode_host
    domain_case hs hp filled v e = elim (Bool-cases (ltb 255 (length host))) [
      | inl long ↦
          inl (e, ltb→lt 255 (length host) long, rw (e, long, encode_datagram, encode_host) refl)
      | inr short ↦ inr (
        sent_bytes session_id (0x03 ∷ length host ∷ host) port payload,
        rw (e, short, encode_datagram, encode_host) refl,
        parse_tail session_id port (0x03 ∷ length host ∷ host) payload host (6 + length host) hs hp
              (omega arith) (omega arith)
              (parse_host-domain session_id host (tail_of port payload) filled v)
            ∙ ap ok (as_seen host (seen_host-parse host none e)),
      )
    ]

    address_case :
        session_id < 2 ^ 32 → port < 2 ^ 16 → (ip : IpAddr) → addr.parse_ip host ≡ some ip → IsRead
    unfolding encode_datagram encode_host
    address_case hs hp (ipv4 a) e = (
      sent_bytes session_id (0x01 ∷ to_be_bytes 4 a) port payload,
      rw (e, encode_datagram, encode_host) refl,
      parse_tail session_id port (0x01 ∷ to_be_bytes 4 a) payload (addr.ip_to_string (ipv4 a)) 9 hs
            hp (omega (arith, length-to_be_bytes 4 a)) (omega arith)
            (parse_host-v4 session_id a (tail_of port payload)
              (addr.parse_ip-IsAddr host (ipv4 a) e))
          ∙ ap ok (as_seen (addr.ip_to_string (ipv4 a)) (seen_host-parse host (some (ipv4 a)) e)),
    )
    address_case hs hp (ipv6 octets) e =
        let (size, _) = addr.parse_ip-IsAddr host (ipv6 octets) e in
        (
          sent_bytes session_id (0x04 ∷ octets) port payload,
          rw (e, encode_datagram, encode_host) refl,
          parse_tail session_id port (0x04 ∷ octets) payload (addr.ip_to_string (ipv6 octets)) 21 hs
                hp (omega arith) (omega arith)
                (parse_host-v6 session_id octets (tail_of port payload) size)
              ∙ ap ok (
                  as_seen (addr.ip_to_string (ipv6 octets))
                    (seen_host-parse host (some (ipv6 octets)) e)),
        )

    -- For a host that is not empty and is valid UTF-8, with a 32-bit session id and a 16-bit port:
    -- either the host is a domain of more than 255 bytes and the encoder returns none, or the
    -- encoder returns bytes that are parsed as the same session id, port and payload, and as the
    -- same host, an address in its canonical text.
    pub parse_datagram-encode_datagram :
        session_id < 2 ^ 32 → port < 2 ^ 16 → host ≢ [] → u.valid host ≡ true → Unsendable ⊎ IsRead
    parse_datagram-encode_datagram hs hp filled v = elim (Option-cases (addr.parse_ip host)) [
      | inl e ↦ domain_case hs hp filled v e
      | inr (ip, e) ↦ inr (address_case hs hp ip e)
    ]
