-- ===== src/Subnetra/Tests.antt =====
-- Concrete runs of the overlay: a stand-in for the primitives, sessions and tables.
mod Accepted
use rove.Base.{ℕ, zero, suc, ◌+◌, ◌-◌, ◌/◌, ◌^◌, ◌≤◌, ◌<◌}
use rove.Base.{
  ◌≡◌, refl, ◌≢◌, ◌⊎◌, inl, Bool, true, false, not, ◌&&◌, Option, none, some, List, [], ◌∷◌, ◌++◌,
  map, arith,
}
use rove.Base.{ltb, ◌==◌, if◌then◌else◌}
use rove.Base.{
  replicate, length, get_elem?, take, drop, All, length-append, take-append_length,
  drop-append_length,
}
use rove.Base.Eq.{list_beq, nat_eq}
use rove.Base.Bytes.{ascii, IsByte, from_be_bytes}
use rove.Net.{ipv4}
use rove.Net.{SocketAddr, Ipv4Net}
use rove.Subnetra.Crypto.{link_key, session_key, obfuscation_pad}
use rove.Subnetra.Wire.{datagram_tag, seal_datagram, demask_header}
use rove.Subnetra.Wire.Header.{Header}
use rove.Subnetra.Wire.Header
use rove.Subnetra.Wire.RoundTrip.{parse-to_bytes, sent_header}
use rove.Subnetra.Session.{
  RxSession, TxSession, accept_datagram, with_epoch, new_rx, new_tx, seal_next, accept, discard,
}
use rove.Subnetra.Session.Runs.{session_no_replay, DistinctPairs}
use rove.Subnetra.Session.Runs
use rove.Subnetra.Session.Transmit.{
  bodies, sealed_under, count_from, count_up_to_max, bodies-IsDistinct, bodies-sealed_under,
}
use rove.Subnetra.Peer.Configured.{Event, received, requested, link_from}
use rove.Base.{IsDistinct}
use rove.Subnetra.Crypto.{nonce}
use rove.Subnetra.Config.{RuntimeConfig, RuntimePeer, hub, netstack}
use rove.Subnetra.Peer.{
  Peer, new_peer, PeerTable, new_table, ingest, route, inner_packet, dropped, ipv4_src, lookup_id,
  select, seal_for,
}
use rove.Subnetra.Peer.Receive.{
  ForgedFor, dropped_keeps_endpoints, handed_on_is_Vouched, unauthentic_leaves_table, Vouched,
  reached,
}
use rove.Subnetra.Peer.Route.{route-Longest_prefix, Owns, Longest}
use rove.Subnetra.Peer.EndToEnd.{IsLinked, sealed_ingested, sealed_is_handed_on}
use rove.Subnetra.Crypto.{Primitives, open_body, seal, AeadKey}
use rove.Subnetra.Replay.{check_and_set, new, run}
use rove.Subnetra.Replay.Window.{contains, Tracks, new-Tracks, check_and_set_exact}
use rove.Subnetra.Replay.Runs.{run_no_loss, Distinct}

All-replicate : {A : Type 0} (P : A → Type 0) (a : A) (n : ℕ) → P a → All P (replicate n a)
All-replicate P a zero h = tt
All-replicate P a (suc n) h = (h, All-replicate P a n h)

abbrev toy_tag : List ℕ
toy_tag = replicate 16 7

toy_open : List ℕ → Option (List ℕ)
toy_open body =
    if list_beq (drop (length body - 16) body) toy_tag
    then some (take (length body - 16) body)
    else none

toy_open-tagged : (text : List ℕ) → toy_open (text ++ toy_tag) ≡ some text
unfolding toy_open
toy_open-tagged text =
    let size : length (text ++ toy_tag) - 16 ≡ length text =
      omega (arith, length-append text toy_tag) in
    rw
      (
        size,
        take-append_length (length text) text toy_tag refl,
        drop-append_length (length text) text toy_tag refl,
      )
      refl

-- The tag is sixteen bytes of 7, the digest 32 bytes of 9.
abbrev toy_digest : List ℕ
toy_digest = replicate 32 9

abbrev toy : Primitives
toy = record {
  blake2b = λ key parts. toy_digest;
  aead_seal = λ key n text. text ++ toy_tag;
  aead_open = λ key n body. toy_open body;
  length-blake2b = λ key parts. refl;
  blake2b-IsByte = λ key parts. All-replicate IsByte 9 32 (omega arith);
  length-aead_seal = λ key n text. length-append text toy_tag;
  open-seal = λ key n text. toy_open-tagged text;
}

run_no_loss_example : (run new [] (3 ∷ 1 ∷ 2 ∷ [])).1 ≡ 2 ∷ 1 ∷ 3 ∷ []
run_no_loss_example =
    run_no_loss (3 ∷ 1 ∷ 2 ∷ []) (omega arith, refl, (omega arith, refl, (omega arith, refl, tt)))

abbrev claimed : Header
claimed = record { version = 1; flags = 0; key_id = 2; epoch = 5; seq = 9 }

parse-to_bytes_example : Header.parse (Header.to_bytes claimed ++ 1 ∷ []) ≡ some claimed
parse-to_bytes_example = parse-to_bytes claimed (1 ∷ []) record {
  version = omega arith;
  flags = omega arith;
  key_id = omega arith;
  epoch = omega arith;
  seq = omega arith;
}

abbrev some_key : AeadKey
some_key = record { session_key = toy_digest }

abbrev some_body : List ℕ
some_body = seal toy some_key 9 (1 ∷ 2 ∷ [])

abbrev forged : List ℕ
forged = replicate 20 0

abbrev genuine : List ℕ
genuine = 1 ∷ 2 ∷ [] ++ toy_tag

abbrev arrivals : List (Header × List ℕ)
arrivals = (claimed, genuine) ∷ (claimed, genuine) ∷ []

session_no_replay_example : DistinctPairs (Runs.run toy (with_epoch toy toy_digest 4) [] arrivals).1
session_no_replay_example = session_no_replay toy toy_digest 4 arrivals

abbrev sender : TxSession
sender = new_tx toy toy_digest 2 5 true

abbrev two_messages : List (ℕ × List ℕ)
two_messages = (0, 1 ∷ []) ∷ (0, 2 ∷ []) ∷ []

bodies-IsDistinct_example :
    (bodies toy sender two_messages
      ≡ sealed_under toy sender.key (map nonce (count_from sender.next_seq 2)) two_messages)
    × IsDistinct (map nonce (count_from sender.next_seq 2))
bodies-IsDistinct_example = bodies-IsDistinct toy sender two_messages room fits
  where
    room : sender.next_seq + 2 ≤ 2 ^ 64
    room = unfold new_tx in omega arith

    fits : sender.next_seq < 2 ^ 64
    fits = unfold new_tx in omega arith

abbrev full_sender : TxSession
full_sender = record sender { next_seq = 2 ^ 64 - 1 }

-- Both messages are sealed with the nonce of the largest u64.
bodies-sealed_under_example :
    bodies toy full_sender two_messages
    ≡ sealed_under toy full_sender.key (map nonce (count_up_to_max (2 ^ 64 - 1) 2)) two_messages
bodies-sealed_under_example = bodies-sealed_under toy full_sender two_messages (omega arith)

-- 10.0.0.0/24 behind peer 2, and 10.0.0.2/32 behind peer 3.
abbrev config : RuntimeConfig
config = record {
  mode = hub;
  local_id = 1;
  listen = record { ip = ipv4 0; port = 18020; flowinfo = 0; scope_id = 0 };
  overlay = record { addr = 167772161; prefix_len = 24 };
  obfuscate = true;
  keepalive_secs = 25;
  mtu = 1452;
  device = netstack (some (ascii "http", 8080));
  peers =
      record {
        id = 2;
        psk = 1 ∷ [];
        allowed_src = record { addr = 167772160; prefix_len = 24 };
        endpoint = none;
        name = [];
      }
      ∷ record {
        id = 3;
        psk = 2 ∷ [];
        allowed_src = record { addr = 167772162; prefix_len = 32 };
        endpoint = none;
        name = [];
      }
      ∷ [];
}

abbrev in_network : Ipv4Net → ℕ → Bool
in_network n a = n.addr / 2 ^ (32 - n.prefix_len) == a / 2 ^ (32 - n.prefix_len)

table : PeerTable
table = new_table toy config 7

abbrev origin : SocketAddr
origin = record { ip = ipv4 1; port = 9000; flowinfo = 0; scope_id = 0 }

route-Longest_prefix_example :
    ((q : Peer) × (route toy in_network table 167772162 ≡ some q.id)
      × ((i : ℕ) × (get_elem? table.peers i ≡ some q))
      × Owns toy in_network 167772162 q
      × Longest toy in_network 167772162 q table.peers)
    ⊎ ((route toy in_network table 167772162 ≡ none)
        × All (λ (p : Peer). in_network p.allowed_src 167772162 ≡ false) table.peers)
route-Longest_prefix_example = route-Longest_prefix toy in_network table 167772162

forged_dropped : (ingest toy in_network table forged origin).1 ≡ dropped
unfolding table new_table ingest datagram_tag
forged_dropped = refl

dropped_keeps_endpoints_example :
    map (λ (p : Peer). p.endpoint) (ingest toy in_network table forged origin).0.peers
    ≡ map (λ (p : Peer). p.endpoint) table.peers
dropped_keeps_endpoints_example =
    dropped_keeps_endpoints toy in_network table forged origin forged_dropped

-- The node took in a forged datagram and was asked for a packet to a peer without an endpoint.
abbrev past : List Event
past = received forged origin ∷ requested 2 0 (1 ∷ []) ∷ []

none_opens : All (ForgedFor toy in_network config 7 past (drop 20 (replicate 60 0))) config.peers
unfolding open_body toy_open
none_opens = (λ epoch seq. refl, (λ epoch seq. refl, tt))

unauthentic_leaves_table_example :
    ingest toy in_network (reached toy in_network config 7 past) (replicate 60 0) origin
    ≡ (reached toy in_network config 7 past, dropped)
unauthentic_leaves_table_example =
    unauthentic_leaves_table toy in_network config 7 past (replicate 60 0) origin none_opens

-- A packet from 10.0.0.2 to 10.0.0.1.
abbrev packet : List ℕ
packet = 69 ∷ replicate 11 0 ++ 10 ∷ 0 ∷ 0 ∷ 2 ∷ 10 ∷ 0 ∷ 0 ∷ 1 ∷ []

abbrev first_peer : Peer
first_peer = new_peer toy config 7 record {
  id = 2;
  psk = 1 ∷ [];
  allowed_src = record { addr = 167772160; prefix_len = 24 };
  endpoint = none;
  name = [];
}

-- Node 2 with the first node as its peer.
abbrev far_entry : RuntimePeer
far_entry = record {
  id = 1;
  psk = 1 ∷ [];
  allowed_src = record { addr = 167772161; prefix_len = 32 };
  endpoint = some origin;
  name = [];
}

abbrev far_config : RuntimeConfig
far_config = record config { local_id = 2; peers = far_entry ∷ [] }

abbrev far_peer : Peer
far_peer = new_peer toy far_config 5 far_entry

far_table : PeerTable
far_table = new_table toy far_config 5

far_known : lookup_id 1 far_table.by_id ≡ some 0
unfolding far_table new_table lookup_id
far_known = refl

far_found : get_elem? far_table.peers 0 ≡ some far_peer
unfolding far_table new_table
far_found = refl

far_endpoint : far_peer.endpoint ≡ some origin
unfolding new_peer
far_endpoint = refl

linked : IsLinked toy far_peer.tx table 0 first_peer
unfolding table new_table new_peer new_tx lookup_id new_rx link_key session_key
linked = record {
  stored = refl;
  known = refl;
  same_id = refl;
  same_mask = refl;
  trial_link = refl;
  same_link = refl;
  keyed = refl;
  keyed_rx = record { cached = refl };
  awaited = inl (omega arith);
  positive = omega arith;
  id_fits = omega arith;
  epoch_fits = omega arith;
  seq_fits = omega arith;
}

packet_source : ipv4_src packet ≡ some 167772162
unfolding ipv4_src from_be_bytes
packet_source = refl

source_allowed : in_network first_peer.allowed_src 167772162 ≡ true
unfolding new_peer
source_allowed = refl

sealed_is_handed_on_example :
    (d : List ℕ) × ((seal_for toy in_network far_table 1 0 packet).1 ≡ some (d, origin))
    × ((ingest toy in_network table d origin).1 ≡ inner_packet far_peer.tx.local_id packet)
sealed_is_handed_on_example =
    sealed_is_handed_on toy in_network far_table 0 1 far_peer origin table 0 first_peer origin
      packet 167772162 far_known far_found far_endpoint linked packet_source source_allowed
      (λ e. tt)

-- What node 2 sends first.
abbrev datagram : List ℕ
datagram = (seal_next toy far_peer.tx 0 packet).1

datagram_ingested :
    (ingest toy in_network table datagram origin).1 ≡ inner_packet far_peer.tx.local_id packet
datagram_ingested =
    sealed_ingested toy in_network far_peer.tx packet linked 167772162 origin packet_source
      source_allowed (λ e. tt)

datagram_kept :
    (ingest toy in_network (reached toy in_network config 7 []) datagram origin).1 ≢ dropped
unfolding table rove.Subnetra.Peer.Configured.run
datagram_kept h = let kept = datagram_ingested in cc

handed_on_is_Vouched_example :
    (tag : List ℕ) × (i : ℕ) × (header : Header) × (p : Peer) × (n : ℕ) × (q : RuntimePeer)
    × (inner : List ℕ) × (datagram_tag datagram ≡ some tag)
    × (select toy (reached toy in_network config 7 []) datagram tag ≡ some (i, header))
    × (get_elem? (reached toy in_network config 7 []).peers i ≡ some p)
    × (get_elem? config.peers n ≡ some q)
    × (p.id ≡ q.id)
    × Vouched toy in_network q.id q.allowed_src
        (link_from toy config q)
        header
        (drop 20 datagram)
        inner
        (ingest toy in_network (reached toy in_network config 7 []) datagram origin).1
handed_on_is_Vouched_example =
    handed_on_is_Vouched toy in_network config 7 [] datagram origin datagram_kept

check_and_set_exact_example :
    ((check_and_set new 3).1 ≡ (not (contains 3 []) && ltb new.highest (3 + 64)))
    × Tracks (if (check_and_set new 3).1 then 3 ∷ [] else []) (check_and_set new 3).0
check_and_set_exact_example = check_and_set_exact [] new 3 new-Tracks
