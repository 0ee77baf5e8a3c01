-- ===== src/Subnetra/Peer/Configured.antt =====
-- The tables that a node builds from a configuration and then runs: what their peers keep.
use rove.Base.{ℕ, zero, suc}
use rove.Base.{◌≡◌, refl, sym, ap, ◌∙◌, inl, inr, Bool, some, List, [], ◌∷◌, map, arith}
use rove.Base.{Option-cases}
use rove.Base.{get_elem?, set, drop, All, All-map}
use mathlib.Core.Path.{subst}
use rove.Net.{SocketAddr, Ipv4Net}
use rove.Subnetra.Config.{RuntimePeer, RuntimeConfig}
use rove.Subnetra.Crypto.{Primitives, header_len, link_key}
use rove.Subnetra.Wire.{datagram_tag}
use rove.Subnetra.Wire.Header.{Header}
use rove.Subnetra.Session.{RxSession, RxOutcome, accept, discard, accept_datagram, seal_next}
use rove.Subnetra.Session.Accept.{IsKeyed, accept-IsKeyed}
use rove.Subnetra.Peer.{
  Peer, PeerTable, lookup_id, new_peer, new_table, select, deliver, ingest_peer, ingest, seal_for,
}

All-set {κ} :
    {A : Type 0} (P : A → Type κ) (xs : List A) (i : ℕ) (y : A)
    → P y
    → All P xs
    → All P (set xs i y)
All-set P [] i y p ps = tt
All-set P (x ∷ xs) zero y p (q, qs) = (p, qs)
All-set P (x ∷ xs) (suc i) y p (q, qs) = (q, All-set P xs i y p qs)

pub All-get_elem? {κ} :
    {A : Type 0} (P : A → Type κ) (xs : List A) (i : ℕ) (x : A)
    → All P xs
    → get_elem? xs i ≡ some x
    → P x
All-get_elem? P [] i x h e = cc
All-get_elem? P (y ∷ xs) zero x (p, ps) e = subst P {x = y} {y = x} (cc) p
All-get_elem? P (y ∷ xs) (suc i) x (p, ps) e = All-get_elem? P xs i x ps e

-- What a table is asked to do: to take a datagram in, or to seal a packet for a peer.
pub data Event : Type 0 where
  received : List ℕ → SocketAddr → Event
  requested : ℕ → ℕ → List ℕ → Event

-- The key of the link from a peer of the configuration.
abbrev pub link_from : Primitives → RuntimeConfig → RuntimePeer → List ℕ
link_from c cfg q = link_key c q.psk q.id cfg.local_id

-- A peer of the table is one of the configuration: its id, its prefix and the key of its link are
-- from there, and the cached session key is that of its current epoch.
pub record IsOf (c : Primitives) (cfg : RuntimeConfig) (peers : List RuntimePeer) (p : Peer)
    : Type 0 where
  pub index : ℕ
  pub entry : RuntimePeer
  pub listed : get_elem? peers index ≡ some entry
  pub same_id : p.id ≡ entry.id
  pub same_prefix : p.allowed_src ≡ entry.allowed_src
  pub same_link : p.rx.rx_link_key ≡ link_from c cfg entry
  pub keyed : IsKeyed c p.rx

module _ (c : Primitives) (net_contains : Ipv4Net → ℕ → Bool) where
  unfoldable pub step : PeerTable → Event → PeerTable
  step t (received datagram src) = (ingest c net_contains t datagram src).0
  step t (requested peer_id flags inner) = (seal_for c net_contains t peer_id flags inner).0

  unfoldable pub run : PeerTable → List Event → PeerTable
  run t [] = t
  run t (e ∷ events) = run (step t e) events

  module _ (cfg : RuntimeConfig) where
    new_peer-IsOf :
        (local_epoch : ℕ) (peers : List RuntimePeer)
        → All (IsOf c cfg peers) (map (new_peer c cfg local_epoch) peers)
    unfolding new_peer rove.Subnetra.Session.new_rx
    new_peer-IsOf local_epoch [] = tt
    new_peer-IsOf local_epoch (q ∷ peers) = (
      record {
        index = 0;
        entry = q;
        listed = refl;
        same_id = refl;
        same_prefix = refl;
        same_link = refl;
        keyed = record { cached = refl };
      },
      All-map _ _ _
          (λ p o. record {
            index = suc o.index;
            entry = o.entry;
            listed = o.listed;
            same_id = o.same_id;
            same_prefix = o.same_prefix;
            same_link = o.same_link;
            keyed = o.keyed;
          })
          (new_peer-IsOf local_epoch peers),
    )

    -- Only the receive session, the transmit session and the endpoint change.
    IsOf-moved :
        (p q : Peer)
        → q.id ≡ p.id
        → q.allowed_src ≡ p.allowed_src
        → q.rx.rx_link_key ≡ p.rx.rx_link_key
        → IsKeyed c q.rx
        → IsOf c cfg cfg.peers p
        → IsOf c cfg cfg.peers q
    IsOf-moved p q same_id same_prefix same_link keyed o = record {
      index = o.index;
      entry = o.entry;
      listed = o.listed;
      same_id = same_id ∙ o.same_id;
      same_prefix = same_prefix ∙ o.same_prefix;
      same_link = same_link ∙ o.same_link;
      keyed = keyed;
    }

    accept-rx_link_key :
        (s : RxSession) (header : Header) (body : List ℕ)
        → (accept_datagram c s header body).0.rx_link_key ≡ s.rx_link_key
    unfolding accept_datagram
    accept-rx_link_key s header body = ground arith

    ingest_peer-rx :
        (p : Peer) (header : Header) (body : List ℕ) (src : SocketAddr)
        → (ingest_peer c net_contains p header body src).0.rx
          ≡ (accept_datagram c p.rx header body).0
    unfolding ingest_peer deliver
    ingest_peer-rx p header body src = ground arith

    ingest_peer-IsOf :
        (p : Peer) (header : Header) (body : List ℕ) (src : SocketAddr)
        → IsOf c cfg cfg.peers p
        → IsOf c cfg cfg.peers (ingest_peer c net_contains p header body src).0
    unfolding ingest_peer deliver
    ingest_peer-IsOf p header body src o =
        let moved = ingest_peer-rx p header body src in
        IsOf-moved p (ingest_peer c net_contains p header body src).0 (ground arith) (ground arith)
          (ap (λ (r : RxSession). r.rx_link_key) moved ∙ accept-rx_link_key p.rx header body)
          (subst (IsKeyed c) (sym moved) (accept-IsKeyed c p.rx header body o.keyed)) o

    abbrev pub AllOf : PeerTable → Type 0
    AllOf t = All (IsOf c cfg cfg.peers) t.peers

    ingest-AllOf :
        (t : PeerTable) (datagram : List ℕ) (src : SocketAddr)
        → AllOf t
        → AllOf (ingest c net_contains t datagram src).0
    unfolding ingest
    ingest-AllOf t datagram src all_of = elim (Option-cases (datagram_tag datagram)) [
      | inl short ↦ rw (short, ingest) all_of
      | inr (tag, tagged) ↦ elim (Option-cases (select c t datagram tag)) [
        | inl unknown ↦ rw (tagged, unknown, ingest) all_of
        | inr ((i, header), selected) ↦ elim (Option-cases (get_elem? t.peers i)) [
          | inl out ↦ rw (tagged, selected, out, ingest) all_of
          | inr (p, found) ↦
              rw (tagged, selected, found, ingest)
                (All-set (IsOf c cfg cfg.peers) t.peers i _
                  (ingest_peer-IsOf p header (drop header_len datagram) src
                    (All-get_elem? (IsOf c cfg cfg.peers) t.peers i p all_of found))
                  all_of)
        ]
      ]
    ]

    seal_for-AllOf :
        (t : PeerTable) (peer_id flags : ℕ) (inner : List ℕ)
        → AllOf t
        → AllOf (seal_for c net_contains t peer_id flags inner).0
    unfolding seal_for
    seal_for-AllOf t peer_id flags inner all_of = elim (Option-cases (lookup_id peer_id t.by_id)) [
      | inl unknown ↦ rw (unknown, seal_for) all_of
      | inr (i, known) ↦ elim (Option-cases (get_elem? t.peers i)) [
        | inl out ↦ rw (known, out, seal_for) all_of
        | inr (p, found) ↦ elim (Option-cases p.endpoint) [
          | inl nowhere ↦ rw (known, found, nowhere, seal_for) all_of
          | inr (endpoint, there) ↦
              let o = All-get_elem? (IsOf c cfg cfg.peers) t.peers i p all_of found in
              rw (known, found, there, seal_for)
                (All-set (IsOf c cfg cfg.peers) t.peers i _
                  (IsOf-moved p (record p { tx = (seal_next c p.tx flags inner).0 }) refl refl refl
                    o.keyed o)
                  all_of)
        ]
      ]
    ]

    run-AllOf : (events : List Event) (t : PeerTable) → AllOf t → AllOf (run t events)
    unfolding run step
    run-AllOf [] t all_of = all_of
    run-AllOf (received datagram src ∷ events) t all_of =
        run-AllOf events (step t (received datagram src)) (ingest-AllOf t datagram src all_of)
    run-AllOf (requested peer_id flags inner ∷ events) t all_of =
        run-AllOf events (step t (requested peer_id flags inner))
          (seal_for-AllOf t peer_id flags inner all_of)

    pub new_table-AllOf :
        (local_epoch : ℕ) (events : List Event) → AllOf (run (new_table c cfg local_epoch) events)
    unfolding new_table
    new_table-AllOf local_epoch events =
        run-AllOf events (new_table c cfg local_epoch) (new_peer-IsOf local_epoch cfg.peers)
