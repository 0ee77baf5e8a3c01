-- ===== src/Subnetra/Peer.antt =====
-- The peer table of the overlay, src/subnetra/peer.rs: selection of the sender, the receive path,
-- routing by inner destination, and sealing.
pub mod Configured
pub mod Receive
pub mod Route
pub mod EndToEnd
pub mod Indexed
use rove.Base.{
  ℕ, zero, suc, ◌+◌, ◌-◌, ◌*◌, ◌/◌, ◌%◌, ◌^◌, ◌≤◌, ◌<◌, min, max, bit_and, bit_or, bit_xor,
}
use rove.Base.{
  ◌≡◌, refl, sym, ap, ◌∙◌, ◌≢◌, ◌↔◌, ◌⊎◌, inl, inr, Bool, true, false, not, ◌&&◌, ◌||◌, Option,
  none, some, List, [], ◌∷◌, ◌++◌, map, arith,
}
use rove.Base.{
  ltb, leb, ◌==◌, if◌then◌else◌, ltb→lt, lt→ltb, leb→le, le→leb, le→ltb_false, ==_iff, Bool-cases,
  Option-cases,
}
use rove.Base.{
  drop-append_add, All-take, All-append, replicate, length, get_elem?, set, take, drop, any, all,
  All, length-append, length-take, length-drop, take-append_length, drop-append_length,
  take-append-drop, any-append, length-set, get_elem?-set_self, get_elem?-set_ne,
}
use rove.Base.Bytes.{
  ascii, IsByte, to_le_bytes, to_be_bytes, from_le_bytes, from_be_bytes, slice, byte_at, xor_prefix,
  length-to_le_bytes, length-to_be_bytes, from_le_bytes-to_le_bytes, from_be_bytes-to_be_bytes,
  to_le_bytes-IsByte, length-xor_prefix, xor_prefix_twice, xor_prefix-append,
}
use rove.Net.{SocketAddr, Ipv4Net}
use rove.Subnetra.Crypto.{Primitives, link_key, obfuscation_pad, header_len}
use rove.Subnetra.Config.{RuntimePeer, RuntimeConfig}
use rove.Subnetra.Wire.{datagram_tag, demask_header}
use rove.Subnetra.Wire.Header
use rove.Subnetra.Wire.Header.{Header, wire_version}
use rove.Subnetra.Session.{
  RxSession, TxSession, RxOutcome, accept, discard, new_rx, new_tx, accept_datagram, seal_next,
}

pub record Peer : Type 0 where
  pub id : ℕ
  pub name : List ℕ
  pub allowed_src : Ipv4Net
  pub endpoint : Option SocketAddr
  pub rx_link_key : List ℕ
  pub rx : RxSession
  pub tx : TxSession

pub data Ingest : Type 0 where
  inner_packet : ℕ → List ℕ → Ingest
  keepalive_from : ℕ → Ingest
  dropped : Ingest

-- `by_id` maps an id to the index of its peer.
pub record PeerTable : Type 0 where
  pub local_id : ℕ
  pub obfuscate : Bool
  pub peers : List Peer
  pub by_id : List (ℕ × ℕ)

unfoldable pub lookup_id : ℕ → List (ℕ × ℕ) → Option ℕ
lookup_id id [] = none
lookup_id id ((k, i) ∷ m) = if k == id then some i else lookup_id id m

unfoldable pub insert_id : ℕ → ℕ → List (ℕ × ℕ) → List (ℕ × ℕ)
insert_id id i [] = (id, i) ∷ []
insert_id id i ((k, j) ∷ m) = if k == id then (id, i) ∷ m else (k, j) ∷ insert_id id i m

-- The address in the bytes from `at` on.
unfoldable pub ipv4_at : ℕ → List ℕ → ℕ
ipv4_at at packet = from_be_bytes (slice at (at + 4) packet)

unfoldable pub ipv4_src : List ℕ → Option ℕ
unfolding ipv4_at
ipv4_src packet =
    if ltb (length packet) 20 || not (byte_at packet 0 / 16 == 4)
    then none
    else some (ipv4_at 12 packet)

unfoldable pub ipv4_dst : List ℕ → Option ℕ
unfolding ipv4_at
ipv4_dst packet =
    if ltb (length packet) 20 || not (byte_at packet 0 / 16 == 4)
    then none
    else some (ipv4_at 16 packet)

module _ (c : Primitives) where
  unfoldable pub new_peer : RuntimeConfig → ℕ → RuntimePeer → Peer
  new_peer cfg local_epoch p = record {
    id = p.id;
    name = p.name;
    allowed_src = p.allowed_src;
    endpoint = p.endpoint;
    rx_link_key = link_key c p.psk p.id cfg.local_id;
    rx = new_rx (link_key c p.psk p.id cfg.local_id);
    tx = new_tx c (link_key c p.psk cfg.local_id p.id) cfg.local_id local_epoch cfg.obfuscate;
  }

  index_ids : ℕ → List RuntimePeer → List (ℕ × ℕ) → List (ℕ × ℕ)
  index_ids i [] by_id = by_id
  index_ids i (p ∷ ps) by_id = index_ids (i + 1) ps (insert_id p.id i by_id)

  unfoldable pub new_table : RuntimeConfig → ℕ → PeerTable
  unfolding index_ids new_peer insert_id
  new_table cfg local_epoch = record {
    local_id = cfg.local_id;
    obfuscate = cfg.obfuscate;
    peers = map (new_peer cfg local_epoch) cfg.peers;
    by_id = index_ids 0 cfg.peers [];
  }

  -- One trial of the receive key of a peer on a masked header.
  unfoldable pub trial : Peer → List ℕ → List ℕ → Option Header
  trial p datagram tag =
      Header.parse (demask_header (take header_len datagram) (obfuscation_pad c p.rx_link_key tag))

  unfoldable pub is_self_consistent : Peer → Header → Bool
  is_self_consistent p header =
      header.version == wire_version && (header.key_id == p.id && Header.is_valid header)

  -- The peers from index `i` on, in order.
  unfoldable pub select_masked : ℕ → List Peer → List ℕ → List ℕ → Option (ℕ × Header)
  unfolding trial is_self_consistent
  select_masked i [] datagram tag = none
  select_masked i (p ∷ ps) datagram tag =
      let rest = select_masked (i + 1) ps datagram tag in
      elim (trial p datagram tag) [
        | none ↦ none
        | some header ↦ if is_self_consistent p header then some (i, header) else rest
      ]

  unfoldable pub select_clear : PeerTable → List ℕ → Option (ℕ × Header)
  unfolding lookup_id
  select_clear t datagram = elim (Header.parse (take header_len datagram)) [
    | none ↦ none
    | some header ↦ elim (lookup_id header.key_id t.by_id) [
      | none ↦ none
      | some i ↦ if Header.is_valid header then some (i, header) else none
    ]
  ]

  unfoldable pub select : PeerTable → List ℕ → List ℕ → Option (ℕ × Header)
  unfolding select_masked select_clear
  select t datagram tag =
      if t.obfuscate then select_masked 0 t.peers datagram tag else select_clear t datagram

module _ (c : Primitives) (net_contains : Ipv4Net → ℕ → Bool) where
  -- What an accepted plaintext does to its peer, whose receive session has already moved on.
  unfoldable pub deliver : Peer → Header → List ℕ → SocketAddr → Peer × Ingest
  unfolding ipv4_src
  deliver p header inner src =
      if Header.is_keepalive header
      then (record p { endpoint = some src }, keepalive_from p.id)
      else elim (ipv4_src inner) [
        | none ↦ (p, dropped)
        | some inner_src ↦
            if not (net_contains p.allowed_src inner_src)
            then (p, dropped)
            else (record p { endpoint = some src }, inner_packet p.id inner)
      ]

  unfoldable pub ingest_peer : Peer → Header → List ℕ → SocketAddr → Peer × Ingest
  unfolding deliver
  ingest_peer p header body src =
      let (rx, outcome) = accept_datagram c p.rx header body in
      elim outcome [
        | discard ↦ (record p { rx = rx }, dropped)
        | accept inner ↦ deliver (record p { rx = rx }) header inner src
      ]

  unfoldable pub ingest : PeerTable → List ℕ → SocketAddr → PeerTable × Ingest
  unfolding ingest_peer select
  ingest t datagram src = elim (datagram_tag datagram) [
    | none ↦ (t, dropped)
    | some tag ↦ elim (select c t datagram tag) [
      | none ↦ (t, dropped)
      | some (i, header) ↦ elim (get_elem? t.peers i) [
        | none ↦ (t, dropped)
        | some p ↦
            let (p', outcome) = ingest_peer p header (drop header_len datagram) src in
            (record t { peers = set t.peers i p' }, outcome)
      ]
    ]
  ]

  -- One peer in the filter and in `max_by_key`, which keeps the last of those with the longest
  -- prefix.
  unfoldable pub pick : Option Peer → Peer → ℕ → Option Peer
  pick best p dst =
      if net_contains p.allowed_src dst
      then elim best [
        | none ↦ some p
        | some q ↦ if leb q.allowed_src.prefix_len p.allowed_src.prefix_len then some p else some q
      ]
      else best

  unfoldable pub best_route : Option Peer → List Peer → ℕ → Option Peer
  best_route best [] dst = best
  best_route best (p ∷ ps) dst = best_route (pick best p dst) ps dst

  unfoldable pub route : PeerTable → ℕ → Option ℕ
  unfolding best_route pick
  route t dst = elim (best_route none t.peers dst) [ none ↦ none | some p ↦ some p.id ]

  unfoldable pub seal_for : PeerTable → ℕ → ℕ → List ℕ → PeerTable × Option (List ℕ × SocketAddr)
  unfolding lookup_id
  seal_for t peer_id flags inner = elim (lookup_id peer_id t.by_id) [
    | none ↦ (t, none)
    | some i ↦ elim (get_elem? t.peers i) [
      | none ↦ (t, none)
      | some p ↦ elim (p.endpoint) [
        | none ↦ (t, none)
        | some endpoint ↦
            let (tx, datagram) = seal_next c p.tx flags inner in
            (record t { peers = set t.peers i (record p { tx = tx }) }, some (datagram, endpoint))
      ]
    ]
  ]

unfoldable pub peers_with_endpoint : List Peer → List ℕ
peers_with_endpoint [] = []
peers_with_endpoint (p ∷ ps) = elim (p.endpoint) [
  | none ↦ peers_with_endpoint ps
  | some _ ↦ p.id ∷ peers_with_endpoint ps
]

unfoldable pub peer_ids : PeerTable → List ℕ
peer_ids t = map (λ (p : Peer). p.id) t.peers

unfoldable pub name_of : PeerTable → ℕ → Option (List ℕ)
unfolding lookup_id
name_of t peer_id = elim (lookup_id peer_id t.by_id) [
  | none ↦ none
  | some i ↦ elim (get_elem? t.peers i) [ none ↦ none | some p ↦ some p.name ]
]
