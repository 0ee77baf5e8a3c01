-- ===== src/Ingress/Frame/Accepted.antt =====
-- What an accepted request of the relay protocol holds.
use rove.Base.{ℕ, zero, suc, ◌-◌, ◌*◌, ◌^◌, ◌≤◌, ◌<◌}
use rove.Base.{◌≡◌, refl, ap, true, false, not, ◌&&◌, List, [], ◌∷◌, arith}
use rove.Base.{leb, ◌==◌, le→leb}
use rove.Base.{length, drop, all, All}
use rove.Base.Bytes.{ascii, IsByte}
use rove.Base.Eq.{list_beq, nat_eq, list_eq}
use rove.Base.Bytes.{ascii}
use rove.Base.Text.{Text, is_empty, trim, strip_prefix}
use rove.Base.Result.{Result, ok, err, ensure, ok_or}
use rove.Base.Bits.{bit_or-nibbles}
use rove.Base.Decimal.{parse_unsigned, parse_unsigned-bounded}
use rove.Base.Result.{is_ok, Holds, Holds-bind, Holds-map, ensure-Holds, ok_or-Holds}
use rove.Ingress.Datagram.{
  FrameError, malformed, unsupported_version, Id128, parse_hex, hex_pairs, hex_nibble,
  is_ascii_hexdigit,
}
use rove.Ingress.Frame.{
  RegisterRequest, LeaseRequest, OpenTcpRequest, SocketText, validate_field, is_line_byte,
  parse_headers, required, parse_transport, starts_with_line, protocol_version, open_tcp_headers,
  max_node_id_bytes, max_token_bytes, max_listener_id_bytes, encode_register, parse_register,
  encode_lease, parse_lease, encode_open_tcp, parse_open_tcp,
}

-- A value that stays on its line: not empty, within the bound, without CR, LF or NUL.
pub record IsField (bound : ℕ) (v : Text) : Type 0 where
  pub filled : is_empty v ≡ false
  pub short : length v ≤ bound
  pub on_line : all is_line_byte v ≡ true

validate_field-IsField :
    (v : Text) (bound : ℕ) (error : Text)
    → Holds (λ u. IsField bound v) (validate_field v bound error)
unfolding validate_field
validate_field-IsField v bound error =
    Holds-map _ _
      (ensure (not (is_empty v) && (leb (length v) bound && all is_line_byte v)) (malformed error))
      (λ u h. record { filled = ground arith; short = ground arith; on_line = ground arith })
      (ensure-Holds _ (malformed error))

IsField-validate_field :
    (v : Text) (bound : ℕ) (error : Text) → IsField bound v → validate_field v bound error ≡ ok tt
unfolding validate_field
IsField-validate_field v bound error h =
    rw (h.filled, le→leb (length v) bound h.short, h.on_line) refl

-- Sixteen bytes.
abbrev IsId : Id128 → Type 0
IsId id = (length id ≡ 16) × All IsByte id

hex_nibble-bounded : (c : ℕ) → is_ascii_hexdigit c ≡ true → hex_nibble c < 16
hex_nibble-bounded c h = ground arith

hex_pairs-IsByte : (s : Text) → all is_ascii_hexdigit s ≡ true → All IsByte (hex_pairs s)
hex_pairs-IsByte [] h = tt
hex_pairs-IsByte (a ∷ []) h = tt
hex_pairs-IsByte (a ∷ b ∷ s) h =
    let high = hex_nibble-bounded a (ground arith) in
    let low = hex_nibble-bounded b (ground arith) in
    let pair = bit_or-nibbles (hex_nibble a) (hex_nibble b) high low in
    (omega arith, hex_pairs-IsByte s (ground arith))

length-hex_pairs : (n : ℕ) (s : Text) → length s ≡ n * 2 → length (hex_pairs s) ≡ n
length-hex_pairs zero [] h = refl
length-hex_pairs (suc n) [] h = absurd (omega arith)
length-hex_pairs n (a ∷ []) h = absurd (omega arith)
length-hex_pairs zero (a ∷ b ∷ s) h = absurd (omega arith)
length-hex_pairs (suc n) (a ∷ b ∷ s) h = ap suc (length-hex_pairs n s (omega arith))

parse_hex-IsId : (s : Text) → Holds IsId (parse_hex s)
unfolding parse_hex
parse_hex-IsId s =
    Holds-bind _ _
      (ensure (length s == 32 && all is_ascii_hexdigit s)
        (malformed (ascii "id must be 32 hex characters")))
      _ (ensure-Holds _ _)
      λ u h. (length-hex_pairs 16 s (ground arith), hex_pairs-IsByte s (ground arith))

-- A request that is encoded without an error.
abbrev Encodes : Result FrameError Text → Type 0
Encodes r = is_ok r ≡ true

abbrev pub IsRegister : RegisterRequest → Type 0
IsRegister r = IsField 128 r.node_id × IsField 1024 r.token × Encodes (encode_register r)

abbrev pub IsLease : LeaseRequest → Type 0
IsLease r = IsField 128 r.listener_id × (r.public_port < 2 ^ 16) × Encodes (encode_lease r)

abbrev pub IsOpenTcp : SocketText → OpenTcpRequest → Type 0
IsOpenTcp sockets r =
    IsField 128 r.relay_instance_id
    × (r.lease_id < 2 ^ 64)
    × IsId r.ingress_id
    × IsId r.tunnel_session_id
    × Encodes (encode_open_tcp sockets r)

always : {A : Type 0} (r : Result FrameError A) → Holds (λ a. Unit {0}) r
always (ok a) = tt
always (err e) = tt

encode_register-Encodes :
    (r : RegisterRequest)
    → IsField 128 r.node_id
    → IsField 1024 r.token
    → Encodes (encode_register r)
unfolding encode_register
encode_register-Encodes r node token =
    rw
      (
        IsField-validate_field r.node_id 128 (ascii "invalid node id") node,
        IsField-validate_field r.token 1024 (ascii "invalid token") token,
      )
      refl

encode_lease-Encodes : (r : LeaseRequest) → IsField 128 r.listener_id → Encodes (encode_lease r)
unfolding encode_lease
encode_lease-Encodes r listener =
    rw (IsField-validate_field r.listener_id 128 (ascii "invalid listener id") listener) refl

parse_register-IsRegister : (lines : List Text) → Holds IsRegister (parse_register lines)
unfolding parse_register
parse_register-IsRegister [] = tt
parse_register-IsRegister (first ∷ rest) =
    Holds-bind (λ a. Unit {0}) _ (ok_or (strip_prefix (ascii "REGISTER ") first) _) _ (always _)
      λ version u1.
        Holds-bind (λ a. Unit {0}) _
          (ensure (list_beq (trim version) protocol_version) unsupported_version) _ (always _)
          λ u2 u3.
            Holds-bind (λ a. Unit {0}) _ (parse_headers rest (ascii "node-id" ∷ ascii "token" ∷ []))
              _ (always _)
              λ headers u4.
                Holds-bind (λ a. Unit {0}) _ (required headers (ascii "node-id")) _ (always _)
                  λ node_id u5.
                    Holds-bind (λ a. Unit {0}) _ (required headers (ascii "token")) _ (always _)
                      λ token u6.
                        Holds-bind _ _
                          (validate_field node_id max_node_id_bytes (ascii "invalid node id")) _
                          (validate_field-IsField node_id 128 _)
                          λ u7 node.
                            Holds-bind _ _
                              (validate_field token max_token_bytes (ascii "invalid token")) _
                              (validate_field-IsField token 1024 _)
                              λ u8 good. (
                                node,
                                good,
                                encode_register-Encodes record { node_id = node_id; token = token }
                                    node good,
                              )

parse_lease-IsLease : (lines : List Text) → Holds IsLease (parse_lease lines)
unfolding parse_lease
parse_lease-IsLease lines =
    Holds-bind (λ a. Unit {0}) _
      (ensure (starts_with_line (ascii "LEASE") lines) (malformed (ascii "expected LEASE verb"))) _
      (always _)
      λ u1 u2.
        Holds-bind (λ a. Unit {0}) _
          (parse_headers (drop 1 lines)
            (ascii "listener-id" ∷ ascii "transport" ∷ ascii "public-port" ∷ []))
          _ (always _)
          λ headers u3.
            Holds-bind (λ a. Unit {0}) _ (required headers (ascii "listener-id")) _ (always _)
              λ listener_id u4.
                Holds-bind _ _
                  (validate_field listener_id max_listener_id_bytes (ascii "invalid listener id")) _
                  (validate_field-IsField listener_id 128 _)
                  λ u5 listener.
                    Holds-bind (λ a. Unit {0}) _ (required headers (ascii "transport")) _ (always _)
                      λ text u6.
                        Holds-bind (λ a. Unit {0}) _ (parse_transport text) _ (always _)
                          λ transport u7.
                            Holds-bind (λ a. Unit {0}) _ (required headers (ascii "public-port")) _
                              (always _)
                              λ port_text u8.
                                Holds-bind _ _
                                  (ok_or (parse_unsigned 65535 port_text)
                                    (malformed (ascii "public port is not a u16")))
                                  _ (ok_or-Holds _ _)
                                  λ public_port port. (
                                    listener,
                                    omega (
                                      arith,
                                      parse_unsigned-bounded 65535 port_text public_port port,
                                    ),
                                    encode_lease-Encodes
                                        record {
                                          listener_id = listener_id;
                                          transport = transport;
                                          public_port = public_port;
                                        }
                                        listener,
                                  )

module _ (sockets : SocketText) where
  encode_open_tcp-Encodes :
      (r : OpenTcpRequest) → IsField 128 r.relay_instance_id → Encodes (encode_open_tcp sockets r)
  unfolding encode_open_tcp
  encode_open_tcp-Encodes r relay =
      rw (IsField-validate_field r.relay_instance_id 128 (ascii "invalid relay instance id") relay)
        refl

  parse_open_tcp-IsOpenTcp :
      (lines : List Text) → Holds (IsOpenTcp sockets) (parse_open_tcp sockets lines)
  unfolding parse_open_tcp
  parse_open_tcp-IsOpenTcp lines =
      Holds-bind (λ a. Unit {0}) _
        (ensure (starts_with_line (ascii "OPEN_TCP") lines)
          (malformed (ascii "expected OPEN_TCP verb")))
        _ (always _)
        λ u1 u2.
          Holds-bind (λ a. Unit {0}) _ (parse_headers (drop 1 lines) open_tcp_headers) _ (always _)
            λ headers u3.
              Holds-bind (λ a. Unit {0}) _ (required headers (ascii "relay-id")) _ (always _)
                λ relay_id u4.
                  Holds-bind _ _
                    (validate_field relay_id max_node_id_bytes (ascii "invalid relay instance id"))
                    _ (validate_field-IsField relay_id 128 _)
                    λ u5 relay.
                      Holds-bind (λ a. Unit {0}) _ (required headers (ascii "lease-id")) _
                        (always _)
                        λ lease_text u6.
                          Holds-bind _ _
                            (ok_or (parse_unsigned (2 ^ 64 - 1) lease_text)
                              (malformed (ascii "lease id is not a u64")))
                            _ (ok_or-Holds _ _)
                            λ lease_id lease.
                              Holds-bind (λ a. Unit {0}) _ (required headers (ascii "ingress-id")) _
                                (always _)
                                λ ingress_text u7.
                                  Holds-bind _ _ (parse_hex ingress_text) _
                                    (parse_hex-IsId ingress_text)
                                    λ ingress_id ingress.
                                      Holds-bind (λ a. Unit {0}) _
                                        (required headers (ascii "client-addr")) _ (always _)
                                        λ client_text u8.
                                          Holds-bind (λ a. Unit {0}) _
                                            (ok_or (sockets.parse_socket client_text)
                                              (malformed (ascii "invalid client address")))
                                            _ (always _)
                                            λ client_addr u9.
                                              Holds-bind (λ a. Unit {0}) _
                                                (required headers (ascii "public-addr")) _
                                                (always _)
                                                λ public_text u10.
                                                  Holds-bind (λ a. Unit {0}) _
                                                    (ok_or (sockets.parse_socket public_text)
                                                      (malformed (ascii "invalid public address")))
                                                    _ (always _)
                                                    λ public_addr u11.
                                                      Holds-bind (λ a. Unit {0}) _
                                                        (required headers (ascii "session-id")) _
                                                        (always _)
                                                        λ session_text u12.
                                                          Holds-bind _ _ (parse_hex session_text) _
                                                            (parse_hex-IsId session_text)
                                                            λ session_id session. (
                                                            relay,
                                                            omega (
                                                            arith,
                                                            parse_unsigned-bounded (2 ^ 64 - 1)
                                                            lease_text lease_id lease,
                                                            ),
                                                            ingress,
                                                            session,
                                                            encode_open_tcp-Encodes
                                                            record {
                                                            lease_id = lease_id;
                                                            ingress_id = ingress_id;
                                                            client_addr = client_addr;
                                                            public_addr = public_addr;
                                                            relay_instance_id = relay_id;
                                                            tunnel_session_id = session_id;
                                                            }
                                                            relay,
                                                            )

  -- From any lines, a register, lease or open request that is accepted has ids and tokens that are
  -- not empty, within their bounds and free of CR, LF and NUL, ports and lease ids that fit their
  -- types, and flow ids of sixteen bytes; and it can be encoded again.
  pub accepted_requests :
      (lines : List Text)
      → Holds IsRegister (parse_register lines)
        × Holds IsLease (parse_lease lines)
        × Holds (IsOpenTcp sockets) (parse_open_tcp sockets lines)
  accepted_requests lines =
      (parse_register-IsRegister lines, parse_lease-IsLease lines, parse_open_tcp-IsOpenTcp lines)
