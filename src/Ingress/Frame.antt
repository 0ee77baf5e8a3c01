-- ===== src/Ingress/Frame.antt =====
-- The requests and replies of rove-ingress/1, src/ingress/frame.rs, and the reader of header blocks.
-- Parsing and printing of socket addresses are std's.
pub mod Accepted
use rove.Base.{
  ℕ, zero, suc, ◌+◌, ◌-◌, ◌*◌, ◌/◌, ◌%◌, ◌^◌, ◌≤◌, ◌<◌, min, max, bit_and, bit_or, bit_xor,
}
use rove.Base.{
  ◌≡◌, refl, sym, ap, ◌∙◌, ◌≢◌, ◌↔◌, ◌⊎◌, inl, inr, Bool, true, false, not, ◌&&◌, ◌||◌, Option,
  none, some, List, [], ◌∷◌, ◌++◌, map, arith,
}
use rove.Base.{
  ltb, leb, ◌==◌, if◌then◌else◌, ltb→lt, lt→ltb, leb→le, le→leb, le→ltb_false, ==_iff, Bool-cases,
  Option-cases,
}
use rove.Base.{
  drop-append_add, All-take, All-append, replicate, length, get_elem?, set, take, drop, any, all,
  All, length-append, length-take, length-drop, take-append_length, drop-append_length,
  take-append-drop, any-append, length-set, get_elem?-set_self, get_elem?-set_ne,
}
use rove.Base.Bytes.{
  ascii, IsByte, to_le_bytes, to_be_bytes, from_le_bytes, from_be_bytes, slice, byte_at, xor_prefix,
  length-to_le_bytes, length-to_be_bytes, from_le_bytes-to_le_bytes, from_be_bytes-to_be_bytes,
  to_le_bytes-IsByte, length-xor_prefix, xor_prefix_twice, xor_prefix-append,
}
use rove.Base.Eq.{Eq, same, same_refl, list_beq, list_beq_iff, member, nat_eq, list_eq}
use rove.Base.Bytes.{ascii}
use rove.Base.Text.{
  Text, is_empty, to_ascii_lowercase, trim, trim_matches, strip_prefix, contains_text, split_on,
  split_once, join_with,
}
use rove.Base.Text.Split.{IsFree, split_on-IsFree, split_on-join_with}
use rove.Base.Result.{Result, ok, err, ◌>>=◌, ensure, ok_or}
use rove.Base.Assoc.{find, has_key, insert}
use rove.Base.Decimal.{to_decimal, parse_unsigned, is_ascii_digit}
use rove.Base.Text.{trim_end_matches}
use rove.Base.Text.Utf8.{Utf8}
use rove.Net.{SocketAddr}
use rove.Ingress.Datagram.{
  FrameError, malformed, unsupported_version, too_large, Id128, parse_hex, display_id,
}

abbrev pub protocol_version : Text
protocol_version = ascii "rove-ingress/1"

abbrev pub max_frame_bytes : ℕ
max_frame_bytes = 4096

abbrev pub max_node_id_bytes : ℕ
max_node_id_bytes = 128

abbrev pub max_listener_id_bytes : ℕ
max_listener_id_bytes = 128

abbrev pub max_token_bytes : ℕ
max_token_bytes = 1024

pub data Transport : Type 0 where
  tcp udp : Transport

pub record RegisterRequest : Type 0 where
  pub node_id : Text
  pub token : Text

pub record LeaseRequest : Type 0 where
  pub listener_id : Text
  pub transport : Transport
  pub public_port : ℕ

pub record OpenTcpRequest : Type 0 where
  pub lease_id : ℕ
  pub ingress_id : Id128
  pub client_addr : SocketAddr
  pub public_addr : SocketAddr
  pub relay_instance_id : Text
  pub tunnel_session_id : Id128

-- The headers of a reply are a map.
pub data Reply : Type 0 where
  reply_ok : List (Text × Text) → Reply
  reply_err : Text → Reply

-- `SocketAddr`'s `FromStr` and `Display`.
pub record SocketText : Type 0 where
  pub parse_socket : Text → Option SocketAddr
  pub socket_to_string : SocketAddr → Text

abbrev pub is_line_byte : ℕ → Bool
is_line_byte b = not (b == 13 || (b == 10 || b == 0))

unfoldable pub validate_field : Text → ℕ → Text → Result FrameError (Unit {0})
validate_field value bound error =
    ensure (not (is_empty value) && (leb (length value) bound && all is_line_byte value))
      (malformed error)

abbrev pub is_name_byte : ℕ → Bool
is_name_byte b = leb b'a' b && leb b b'z' || is_ascii_digit b || b == b'-'

unfoldable pub validate_header_name : Text → Result FrameError (Unit {0})
validate_header_name name =
    ensure (not (is_empty name) && (leb (length name) 64 && all is_name_byte name))
      (malformed (ascii "invalid header name"))

-- A name that stands twice is an error.
unfoldable pub collect_headers :
    List (Text × Text) → List Text → Result FrameError (List (Text × Text))
collect_headers headers [] = ok headers
collect_headers headers (line ∷ lines) = do
  (name, value) ← ok_or (split_once b':' line) (malformed (ascii "header missing colon"))
  _ ← validate_header_name (to_ascii_lowercase (trim name))
  _ ←
      ensure (not (has_key headers (to_ascii_lowercase (trim name))))
        (malformed (ascii "duplicate header"))
  collect_headers (insert headers (to_ascii_lowercase (trim name)) (trim value)) lines

unfoldable pub parse_headers_unrestricted : List Text → Result FrameError (List (Text × Text))
unfolding collect_headers
parse_headers_unrestricted lines = collect_headers [] lines

unfoldable pub parse_headers : List Text → List Text → Result FrameError (List (Text × Text))
unfolding parse_headers_unrestricted
parse_headers lines allowed = do
  headers ← parse_headers_unrestricted lines
  _ ← ensure (all (λ h. member h.0 allowed) headers) (malformed (ascii "unknown header"))
  ok headers

abbrev pub filled : Option Text → Option Text
filled none = none
filled (some v) = if is_empty v then none else some v

unfoldable pub required : List (Text × Text) → Text → Result FrameError Text
required headers name =
    ok_or (filled (find headers name)) (malformed (ascii "required header missing"))

unfoldable pub parse_transport : Text → Result FrameError Transport
parse_transport value =
    let word = to_ascii_lowercase (trim value) in
    if list_beq word (ascii "tcp")
    then ok tcp
    else (if list_beq word (ascii "udp")
        then ok udp
        else err (malformed (ascii "transport must be tcp or udp")))

abbrev pub transport_name : Transport → Text
transport_name tcp = ascii "tcp"
transport_name udp = ascii "udp"

abbrev pub line : Text → Text
line l = l ++ 10 ∷ []

unfoldable pub encode_register : RegisterRequest → Result FrameError Text
encode_register r = do
  _ ← validate_field r.node_id max_node_id_bytes (ascii "invalid node id")
  _ ← validate_field r.token max_token_bytes (ascii "invalid token")
  ok (
      line (ascii "REGISTER " ++ protocol_version)
      ++ (line (ascii "node-id: " ++ r.node_id) ++ (line (ascii "token: " ++ r.token) ++ line [])))

unfoldable pub parse_register : List Text → Result FrameError RegisterRequest
parse_register [] = err (malformed (ascii "empty register frame"))
parse_register (first ∷ rest) = do
  version ←
      ok_or (strip_prefix (ascii "REGISTER ") first) (malformed (ascii "expected REGISTER verb"))
  _ ← ensure (list_beq (trim version) protocol_version) unsupported_version
  headers ← parse_headers rest (ascii "node-id" ∷ ascii "token" ∷ [])
  node_id ← required headers (ascii "node-id")
  token ← required headers (ascii "token")
  _ ← validate_field node_id max_node_id_bytes (ascii "invalid node id")
  _ ← validate_field token max_token_bytes (ascii "invalid token")
  ok record { node_id = node_id; token = token }

unfoldable pub encode_lease : LeaseRequest → Result FrameError Text
encode_lease r = do
  _ ← validate_field r.listener_id max_listener_id_bytes (ascii "invalid listener id")
  ok (
      line (ascii "LEASE")
      ++ (line (ascii "listener-id: " ++ r.listener_id)
          ++ (line (ascii "transport: " ++ transport_name r.transport)
              ++ (line (ascii "public-port: " ++ to_decimal r.public_port) ++ line []))))

abbrev pub starts_with_line : Text → List Text → Bool
starts_with_line verb [] = false
starts_with_line verb (l ∷ ls) = list_beq l verb

unfoldable pub parse_lease : List Text → Result FrameError LeaseRequest
parse_lease lines = do
  _ ← ensure (starts_with_line (ascii "LEASE") lines) (malformed (ascii "expected LEASE verb"))
  headers ←
      parse_headers (drop 1 lines)
        (ascii "listener-id" ∷ ascii "transport" ∷ ascii "public-port" ∷ [])
  listener_id ← required headers (ascii "listener-id")
  _ ← validate_field listener_id max_listener_id_bytes (ascii "invalid listener id")
  transport_text ← required headers (ascii "transport")
  transport ← parse_transport transport_text
  port_text ← required headers (ascii "public-port")
  public_port ←
      ok_or (parse_unsigned 65535 port_text) (malformed (ascii "public port is not a u16"))
  ok record { listener_id = listener_id; transport = transport; public_port = public_port }

abbrev pub open_tcp_headers : List Text
open_tcp_headers =
    ascii "lease-id"
    ∷ ascii "ingress-id"
    ∷ ascii "client-addr"
    ∷ ascii "public-addr"
    ∷ ascii "relay-id"
    ∷ ascii "session-id"
    ∷ []

module _ (sockets : SocketText) where
  unfoldable pub encode_open_tcp : OpenTcpRequest → Result FrameError Text
  encode_open_tcp r = do
    _ ← validate_field r.relay_instance_id max_node_id_bytes (ascii "invalid relay instance id")
    ok (
        line (ascii "OPEN_TCP")
        ++ (line (ascii "lease-id: " ++ to_decimal r.lease_id)
            ++ (line (ascii "ingress-id: " ++ display_id r.ingress_id)
                ++ (line (ascii "client-addr: " ++ sockets.socket_to_string r.client_addr)
                    ++ (line (ascii "public-addr: " ++ sockets.socket_to_string r.public_addr)
                        ++ (line (ascii "relay-id: " ++ r.relay_instance_id)
                            ++ (line (ascii "session-id: " ++ display_id r.tunnel_session_id)
                                ++ line [])))))))

  unfoldable pub parse_open_tcp : List Text → Result FrameError OpenTcpRequest
  parse_open_tcp lines = do
    _ ←
        ensure (starts_with_line (ascii "OPEN_TCP") lines)
          (malformed (ascii "expected OPEN_TCP verb"))
    headers ← parse_headers (drop 1 lines) open_tcp_headers
    relay_instance_id ← required headers (ascii "relay-id")
    _ ← validate_field relay_instance_id max_node_id_bytes (ascii "invalid relay instance id")
    lease_text ← required headers (ascii "lease-id")
    lease_id ←
        ok_or (parse_unsigned (2 ^ 64 - 1) lease_text) (malformed (ascii "lease id is not a u64"))
    ingress_text ← required headers (ascii "ingress-id")
    ingress_id ← parse_hex ingress_text
    client_text ← required headers (ascii "client-addr")
    client_addr ←
        ok_or (sockets.parse_socket client_text) (malformed (ascii "invalid client address"))
    public_text ← required headers (ascii "public-addr")
    public_addr ←
        ok_or (sockets.parse_socket public_text) (malformed (ascii "invalid public address"))
    session_text ← required headers (ascii "session-id")
    tunnel_session_id ← parse_hex session_text
    ok record {
      lease_id = lease_id;
      ingress_id = ingress_id;
      client_addr = client_addr;
      public_addr = public_addr;
      relay_instance_id = relay_instance_id;
      tunnel_session_id = tunnel_session_id;
    }
