-- ===== src/Ingress/Tests.antt =====
-- Concrete runs of the relay protocol's codecs.
use rove.Base.{
  ℕ, zero, suc, ◌+◌, ◌-◌, ◌*◌, ◌/◌, ◌%◌, ◌^◌, ◌≤◌, ◌<◌, min, max, bit_and, bit_or, bit_xor,
}
use rove.Base.{
  ◌≡◌, refl, sym, ap, ◌∙◌, ◌≢◌, ◌↔◌, ◌⊎◌, inl, inr, Bool, true, false, not, ◌&&◌, ◌||◌, Option,
  none, some, List, [], ◌∷◌, ◌++◌, map, arith,
}
use rove.Base.{
  ltb, leb, ◌==◌, if◌then◌else◌, ltb→lt, lt→ltb, leb→le, le→leb, le→ltb_false, ==_iff, Bool-cases,
  Option-cases,
}
use rove.Base.{
  drop-append_add, All-take, All-append, replicate, length, get_elem?, set, take, drop, any, all,
  All, length-append, length-take, length-drop, take-append_length, drop-append_length,
  take-append-drop, any-append, length-set, get_elem?-set_self, get_elem?-set_ne,
}
use rove.Base.Bytes.{ascii}
use rove.Base.Eq.{nat_eq, list_eq}
use rove.Base.Bytes.{ascii}
use rove.Base.Text.{
  Text, is_empty, to_ascii_lowercase, trim, trim_matches, strip_prefix, contains_text, split_on,
  split_once, join_with,
}
use rove.Base.Result.{ok}
use rove.Base.Assoc.{find, insert}
use rove.Base.Result.{Holds}
use rove.Net.{SocketAddr, ipv4, ipv6}
use rove.Net.StandIns.{ascii_only}
use rove.Ingress.Datagram.{Datagram, uplink, parse_datagram, encode_datagram}
use rove.Ingress.Datagram.RoundTrip.{encode_datagram_parses, unscoped}
use rove.Ingress.Frame.{SocketText, parse_register, parse_lease, parse_open_tcp, RegisterRequest}
use rove.Ingress.Frame.Accepted.{IsRegister, IsLease, IsOpenTcp, accepted_requests}
use rove.Ingress.Replies.{read_frame}

abbrev client : SocketAddr
client = record { ip = ipv4 16909060; port = 53; flowinfo = 0; scope_id = 0 }

-- A link-local address with the scope of its interface.
abbrev scoped_client : SocketAddr
scoped_client = record {
  ip = ipv6 (0xfe ∷ 0x80 ∷ replicate 14 1);
  port = 53;
  flowinfo = 0;
  scope_id = 4;
}

abbrev some_datagram : Datagram
some_datagram = uplink 77 (replicate 16 0xab) scoped_client (1 ∷ 2 ∷ [])

encode_datagram_parses_example :
    parse_datagram (encode_datagram some_datagram) ≡ ok (unscoped some_datagram)
encode_datagram_parses_example =
    encode_datagram_parses some_datagram (omega arith, refl, (refl, ground arith), omega arith)

-- One address for every text.
abbrev one_socket : SocketText
one_socket = record { parse_socket = λ s. some client; socket_to_string = λ a. ascii "1.2.3.4:53" }

abbrev some_lines : List Text
some_lines = ascii "REGISTER rove-ingress/1" ∷ ascii "node-id: n1" ∷ ascii "Token:  secret " ∷ []

some_register :
    parse_register some_lines ≡ ok record { node_id = ascii "n1"; token = ascii "secret" }
unfolding parse_register strip_prefix trim rove.Ingress.Frame.parse_headers split_once
    rove.Ingress.Frame.validate_header_name to_ascii_lowercase insert rove.Ingress.Frame.required
    find rove.Ingress.Frame.validate_field
some_register = refl

accepted_requests_example :
    Holds IsRegister (parse_register some_lines)
    × Holds IsLease (parse_lease some_lines)
    × Holds (IsOpenTcp one_socket) (parse_open_tcp one_socket some_lines)
accepted_requests_example = accepted_requests one_socket some_lines

-- Both line ends are read.
some_frame :
    read_frame ascii_only (ascii "OK" ++ 13 ∷ 10 ∷ 13 ∷ 10 ∷ 7 ∷ []) ≡ ok (ascii "OK" ∷ [], 7 ∷ [])
unfolding read_frame split_on rove.Base.Text.trim_end_matches rove.Ingress.Replies.replace_crlf
some_frame = refl
