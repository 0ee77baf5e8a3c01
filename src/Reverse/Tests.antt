-- ===== src/Reverse/Tests.antt =====
-- Concrete runs of the reverse hop's frames, datagrams and tables.
use rove.Base.{
  ℕ, zero, suc, ◌+◌, ◌-◌, ◌*◌, ◌/◌, ◌%◌, ◌^◌, ◌≤◌, ◌<◌, min, max, bit_and, bit_or, bit_xor,
}
use rove.Base.{
  ◌≡◌, refl, sym, ap, ◌∙◌, ◌≢◌, ◌↔◌, ◌⊎◌, inl, inr, Bool, true, false, not, ◌&&◌, ◌||◌, Option,
  none, some, List, [], ◌∷◌, ◌++◌, map, arith,
}
use rove.Base.{
  ltb, leb, ◌==◌, if◌then◌else◌, ltb→lt, lt→ltb, leb→le, le→leb, le→ltb_false, ==_iff, Bool-cases,
  Option-cases,
}
use rove.Base.{
  drop-append_add, All-take, All-append, replicate, length, get_elem?, set, take, drop, any, all,
  All, length-append, length-take, length-drop, take-append_length, drop-append_length,
  take-append-drop, any-append, length-set, get_elem?-set_self, get_elem?-set_ne,
}
use rove.Base.Bytes.{
  ascii, IsByte, to_le_bytes, to_be_bytes, from_le_bytes, from_be_bytes, slice, byte_at, xor_prefix,
  length-to_le_bytes, length-to_be_bytes, from_le_bytes-to_le_bytes, from_be_bytes-to_be_bytes,
  to_le_bytes-IsByte, length-xor_prefix, xor_prefix_twice, xor_prefix-append,
}
use rove.Base.Eq.{nat_eq, list_eq}
use rove.Base.Bytes.{ascii}
use rove.Base.Text.{Text, trim}
use rove.Base.Result.{ok}
use rove.Base.Assoc.{find, insert}
use mathlib.Core.Path.{subst}
use rove.Base.{IsDistinct}
use rove.Base.Text.{strip_space}
use rove.Base.Decimal.{to_decimal, parse_unsigned}
use rove.Net.{SocketAddr, ipv4, socket_eq}
use rove.Net.StandIns.{ascii_only, toy_addr}
use rove.Reverse.Lines.{read_frame}
use rove.Reverse.Frame.{TunnelRequest, encode_tunnel, parse_tunnel}
use rove.Reverse.Frame.RoundTrip.{Tunnel, parse_tunnel-read_frame}
use rove.Reverse.Datagram.{Datagram, encode_datagram, parse_datagram}
use rove.Reverse.Datagram.RoundTrip.{Unsendable, IsRead, parse_datagram-encode_datagram}
use rove.Reverse.Udp.{
  next_session_id, no_contacts, contact, contains, new_hop_table, Output, sent_to, relayed, nothing,
}
use rove.Reverse.Udp.Ids.{issue, issue-IsDistinct, next_session_id_returns}
use rove.Reverse.Udp.Contacts.{IsWell, contact-IsWell, no_contacts-IsWell}
use rove.Reverse.Udp.Kept.{AllInvited, IsKept}
use rove.Reverse.Udp.Relayed.{Event, associated, from_edge, from_socket, run, run-AllInvited}

abbrev some_tunnel : TunnelRequest
some_tunnel = record { host = ascii "a.b"; port = 443; tunnel_id = some (ascii "t7") }

some_tunnel_bytes :
    encode_tunnel some_tunnel
    ≡ ascii "CONNECT a.b 443" ++ 10 ∷ (ascii "tunnel-id: t7" ++ 10 ∷ 10 ∷ [])
unfolding encode_tunnel to_decimal
some_tunnel_bytes = refl

some_tunnel-Tunnel : Tunnel ascii_only some_tunnel
some_tunnel-Tunnel = record {
  filled = λ e. cc;
  spaceless = unfold strip_space in (refl, (refl, (refl, tt)));
  short = omega arith;
  encoded = refl;
  port = omega arith;
  tunnel_id = record {
    filled = λ e. cc;
    inner = ((refl, refl), ((refl, refl), tt));
    trimmed = unfold trim in refl;
    encoded = refl;
  };
}

parse_tunnel-read_frame_example :
    (lines : List Text) × (read_frame ascii_only (encode_tunnel some_tunnel ++ 1 ∷ 2 ∷ [])
      ≡ ok (lines, 1 ∷ 2 ∷ []))
    × (parse_tunnel lines ≡ ok some_tunnel)
parse_tunnel-read_frame_example =
    parse_tunnel-read_frame ascii_only some_tunnel (1 ∷ 2 ∷ []) some_tunnel-Tunnel
      (subst (λ s. length s ≤ 4096) (sym some_tunnel_bytes) (omega arith))

parse_datagram-encode_datagram_example :
    Unsendable toy_addr ascii_only 9 (ascii "a.b") 53 (1 ∷ [])
    ⊎ IsRead toy_addr ascii_only 9 (ascii "a.b") 53 (1 ∷ [])
parse_datagram-encode_datagram_example =
    parse_datagram-encode_datagram toy_addr ascii_only 9 (ascii "a.b") 53 (1 ∷ []) (omega arith)
      (omega arith) (λ e. cc) refl

next_session_id_returns_example :
    (id : ℕ) × (rest : ℕ) × (next_session_id 2 0 ≡ some (id, rest))
    × (id ≢ 0)
    × (id < 2 ^ 32)
    × (rest < 2 ^ 32)
next_session_id_returns_example = next_session_id_returns 0 (omega arith)

issue-IsDistinct_example :
    (length (issue 3 (2 ^ 32 - 1)) ≡ 3)
    × All (λ id. id ≢ 0) (issue 3 (2 ^ 32 - 1))
    × IsDistinct (issue 3 (2 ^ 32 - 1))
issue-IsDistinct_example = issue-IsDistinct 3 (2 ^ 32 - 1) (omega arith) (omega arith)

abbrev server : SocketAddr
server = record { ip = ipv4 16909060; port = 53; flowinfo = 0; scope_id = 0 }

contact-IsWell_example :
    IsWell (contact no_contacts server)
    × (contains (contact no_contacts server) server ≡ true)
    × ((b : SocketAddr)
        → contains (contact no_contacts server) b ≡ true
        → (b ≡ server) ⊎ (contains no_contacts b ≡ true))
contact-IsWell_example = contact-IsWell no_contacts server no_contacts-IsWell

-- A packet goes up, its answer and an uninvited packet come down.
abbrev some_events : List Event
some_events =
    associated 9 true 0
    ∷ from_edge (0 ∷ 0 ∷ 0 ∷ 9 ∷ 3 ∷ 1 ∷ b'h' ∷ 0 ∷ 53 ∷ 7 ∷ []) 1 (some server) true
    ∷ from_socket 9 record { ip = ipv4 5; port = 1; flowinfo = 0; scope_id = 0 } (6 ∷ []) 2 none
    ∷ from_socket 9 server (8 ∷ []) 2 none
    ∷ []

some_outputs :
    (run toy_addr ascii_only (new_hop_table 4) [] some_events).1
    ≡ relayed 9 server (0 ∷ 0 ∷ 0 ∷ 9 ∷ 1 ∷ 1 ∷ 2 ∷ 3 ∷ 4 ∷ 0 ∷ 53 ∷ 8 ∷ [])
      ∷ nothing
      ∷ sent_to 9 server (7 ∷ [])
      ∷ nothing
      ∷ []
unfolding run rove.Reverse.Udp.Relayed.step rove.Reverse.Udp.downlink rove.Reverse.Udp.uplink find
    parse_datagram rove.Reverse.Datagram.parse_host rove.Reverse.Udp.associate new_hop_table insert
    from_be_bytes rove.Reverse.Udp.send_up rove.Reverse.Udp.resolve rove.Reverse.Udp.new_hop_session
    contains contact no_contacts rove.Reverse.Udp.evict_oldest encode_datagram
    rove.Reverse.Datagram.encode_host to_be_bytes rove.Base.Bytes.u16_at to_decimal parse_unsigned
    rove.Base.Decimal.read_digits rove.Reverse.Datagram.host_domain
some_outputs = refl

run-AllInvited_example :
    AllInvited (run toy_addr ascii_only (new_hop_table 4) [] some_events).1
    × IsKept
        (run toy_addr ascii_only (new_hop_table 4) [] some_events).1
        (run toy_addr ascii_only (new_hop_table 4) [] some_events).0
run-AllInvited_example = run-AllInvited toy_addr ascii_only 4 some_events
