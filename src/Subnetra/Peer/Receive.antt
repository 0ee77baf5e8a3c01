-- ===== src/Subnetra/Peer/Receive.antt =====
-- What a received datagram may do to the peer table.
use rove.Base.{ℕ, zero, suc}
use rove.Base.{
  ◌≡◌, refl, sym, ap, ◌≢◌, ◌⊎◌, inl, inr, Bool, true, none, some, List, [], ◌∷◌, map, arith,
}
use rove.Base.{Bool-cases, Option-cases}
use rove.Base.{get_elem?, set, drop, All}
use mathlib.Core.Path.{subst}
use rove.Net.{SocketAddr, Ipv4Net}
use rove.Subnetra.Crypto.{Primitives, header_len, open_body, session_key}
use rove.Subnetra.Config.{RuntimePeer, RuntimeConfig}
use rove.Subnetra.Peer.Configured.{Event, IsOf, link_from, run, new_table-AllOf, All-get_elem?}
use rove.Subnetra.Wire.{datagram_tag}
use rove.Subnetra.Wire.Header
use rove.Subnetra.Wire.Header.{Header}
use rove.Subnetra.Session.{RxSession, RxOutcome, accept, discard, accept_datagram}
use rove.Subnetra.Session.Accept.{IsKeyed, key_for, unauthentic_unchanged}
use rove.Subnetra.Peer.{
  Peer, PeerTable, Ingest, inner_packet, keepalive_from, dropped, ipv4_src, select, deliver,
  ingest_peer, ingest, new_table,
}

set_same : {A : Type 0} (xs : List A) (i : ℕ) (x : A) → get_elem? xs i ≡ some x → set xs i x ≡ xs
set_same [] i x h = refl
set_same (y ∷ xs) zero x h = cc
set_same (y ∷ xs) (suc i) x h = ap (λ l. y ∷ l) (set_same xs i x h)

map-set :
    {A B : Type 0} (f : A → B) (xs : List A) (i : ℕ) (x y : A)
    → get_elem? xs i ≡ some x
    → f y ≡ f x
    → map f (set xs i y) ≡ map f xs
map-set f [] i x y h e = refl
map-set f (z ∷ xs) zero x y h e = cc
map-set f (z ∷ xs) (suc i) x y h e = ap (λ l. f z ∷ l) (map-set f xs i x y h e)

module _ (c : Primitives) (net_contains : Ipv4Net → ℕ → Bool) where
  -- What is known of a plaintext that the table hands on, from a peer with an id, a prefix and the
  -- key of a link.
  pub record Vouched (id : ℕ) (prefix : Ipv4Net) (link : List ℕ) (header : Header)
      (body inner : List ℕ) (outcome : Ingest) : Type 0 where
    pub opened :
        open_body c (record { session_key = session_key c link header.epoch }) header.seq body
        ≡ some inner
    pub by_peer :
        (outcome ≡ keepalive_from id) × (Header.is_keepalive header ≡ true)
        ⊎ (outcome ≡ inner_packet id inner)
          × ((src : ℕ) × (ipv4_src inner ≡ some src) × (net_contains prefix src ≡ true))

  accept-opened :
      (s : RxSession) (header : Header) (body inner : List ℕ)
      → IsKeyed c s
      → (accept_datagram c s header body).1 ≡ accept inner
      → open_body c (key_for c s header.epoch) header.seq body ≡ some inner
  unfolding accept_datagram
  accept-opened s header body inner k h = ground arith

  deliver-endpoint :
      (p : Peer) (header : Header) (inner : List ℕ) (src : SocketAddr)
      → (deliver c net_contains p header inner src).1 ≡ dropped
      → (deliver c net_contains p header inner src).0 ≡ p
  unfolding deliver
  deliver-endpoint p header inner src h = ground arith

  ingest_peer-endpoint :
      (p : Peer) (header : Header) (body : List ℕ) (src : SocketAddr)
      → (ingest_peer c net_contains p header body src).1 ≡ dropped
      → (ingest_peer c net_contains p header body src).0.endpoint ≡ p.endpoint
  unfolding ingest_peer
  ingest_peer-endpoint p header body src h = ground arith

  -- The datagram is dropped before any peer is selected, or one peer takes it.
  abbrev Taken : PeerTable → List ℕ → SocketAddr → ℕ → Header → Peer → Type 0
  Taken t datagram src i header p =
      ((tag : List ℕ) × (datagram_tag datagram ≡ some tag)
        × (select c t datagram tag ≡ some (i, header)))
      × (get_elem? t.peers i ≡ some p)
      × (ingest c net_contains t datagram src ≡ (
        record t {
          peers =
              set t.peers i (ingest_peer c net_contains p header (drop header_len datagram) src).0;
        },
        (ingest_peer c net_contains p header (drop header_len datagram) src).1,
      ))

  ingest-cases :
      (t : PeerTable) (datagram : List ℕ) (src : SocketAddr)
      → (ingest c net_contains t datagram src ≡ (t, dropped))
        ⊎ ((i : ℕ) × (header : Header) × (p : Peer) × Taken t datagram src i header p)
  unfolding ingest
  ingest-cases t datagram src = elim (Option-cases (datagram_tag datagram)) [
    | inl short ↦ inl (rw (short, ingest))
    | inr (tag, tagged) ↦ elim (Option-cases (select c t datagram tag)) [
      | inl unknown ↦ inl (rw (tagged, unknown, ingest))
      | inr ((i, header), selected) ↦ elim (Option-cases (get_elem? t.peers i)) [
        | inl out ↦ inl (rw (tagged, selected, out, ingest))
        | inr (p, found) ↦
            inr
              (i, header, p, ((tag, tagged, selected), found, rw (tagged, selected, found, ingest)))
      ]
    ]
  ]

  -- A datagram that is dropped moves no endpoint, whichever check refused it.
  pub dropped_keeps_endpoints :
      (t : PeerTable) (datagram : List ℕ) (src : SocketAddr)
      → (ingest c net_contains t datagram src).1 ≡ dropped
      → map (λ (p : Peer). p.endpoint) (ingest c net_contains t datagram src).0.peers
        ≡ map (λ (p : Peer). p.endpoint) t.peers
  dropped_keeps_endpoints t datagram src h = elim (ingest-cases t datagram src) [
    | inl e ↦ rw e
    | inr (i, header, p, (read, found, e)) ↦ rw e (
        map-set (λ (p : Peer). p.endpoint) t.peers i p _ found
          (ingest_peer-endpoint p header (drop header_len datagram) src (rw e at h)))
  ]

  deliver-cases :
      (p : Peer) (header : Header) (inner : List ℕ) (src : SocketAddr)
      → (deliver c net_contains p header inner src).1 ≢ dropped
      → ((deliver c net_contains p header inner src).1 ≡ keepalive_from p.id)
          × (Header.is_keepalive header ≡ true)
        ⊎ ((deliver c net_contains p header inner src).1 ≡ inner_packet p.id inner)
          × ((from : ℕ) × (ipv4_src inner ≡ some from) × (net_contains p.allowed_src from ≡ true))
  unfolding deliver
  deliver-cases p header inner src h = elim (Bool-cases (Header.is_keepalive header)) [
    | inl alive ↦ inl (rw alive, alive)
    | inr plain ↦ elim (Option-cases (ipv4_src inner)) [
      | inl bad ↦ absurd (h (rw (plain, bad, deliver)))
      | inr (from, read) ↦ elim (Bool-cases (net_contains p.allowed_src from)) [
        | inl within ↦ inr (rw (plain, read, within, deliver), (from, read, within))
        | inr outside ↦ absurd (h (rw (plain, read, outside, deliver)))
      ]
    ]
  ]

  RxOutcome-cases : (o : RxOutcome) → (o ≡ discard) ⊎ ((inner : List ℕ) × (o ≡ accept inner))
  RxOutcome-cases discard = inl refl
  RxOutcome-cases (accept inner) = inr (inner, refl)

  ingest_peer-Vouched :
      (p : Peer) (header : Header) (body : List ℕ) (src : SocketAddr)
      → IsKeyed c p.rx
      → (ingest_peer c net_contains p header body src).1 ≢ dropped
      → (inner : List ℕ) × Vouched p.id p.allowed_src p.rx.rx_link_key header body inner
          (ingest_peer c net_contains p header body src).1
  unfolding ingest_peer
  ingest_peer-Vouched p header body src k h =
      let (rx, outcome) = accept_datagram c p.rx header body in
      elim (RxOutcome-cases outcome) [
        | inl refused ↦ absurd (h (rw (refused, ingest_peer)))
        | inr (inner, taken) ↦ (
          inner,
          record {
            opened = accept-opened p.rx header body inner k taken;
            by_peer =
                rw (taken, ingest_peer)
                  (deliver-cases (record p { rx = rx }) header inner src
                    (λ e. h (rw (taken, ingest_peer) e)));
          },
        )
      ]

  ingest_peer-unauthentic :
      (p : Peer) (header : Header) (body : List ℕ) (src : SocketAddr)
      → IsKeyed c p.rx
      → open_body c (key_for c p.rx header.epoch) header.seq body ≡ none
      → ingest_peer c net_contains p header body src ≡ (p, dropped)
  unfolding ingest_peer
  ingest_peer-unauthentic p header body src k forged =
      let same = unauthentic_unchanged c p.rx header body k forged in
      rw (same, ingest_peer)
        (ap (λ (r : RxSession × RxOutcome). (record p { rx = r.0 }, dropped)) same)

  module _ (cfg : RuntimeConfig) (local_epoch : ℕ) (events : List Event) where
    -- A table built from the configuration, after some datagrams and requests.
    abbrev pub reached : PeerTable
    reached = run c net_contains (new_table c cfg local_epoch) events

    reached-IsOf : (i : ℕ) (p : Peer) → get_elem? reached.peers i ≡ some p → IsOf c cfg cfg.peers p
    reached-IsOf i p found =
        All-get_elem? (IsOf c cfg cfg.peers) reached.peers i p
          (new_table-AllOf c net_contains cfg local_epoch events) found

    Vouched-moved :
        (p : Peer) (o : IsOf c cfg cfg.peers p) (header : Header) (body inner : List ℕ)
        (outcome : Ingest)
        → Vouched p.id p.allowed_src p.rx.rx_link_key header body inner outcome
        → Vouched o.entry.id o.entry.allowed_src (link_from c cfg o.entry) header body inner outcome
    Vouched-moved p o header body inner outcome v =
        subst (λ l. Vouched o.entry.id o.entry.allowed_src l header body inner outcome) o.same_link
          (subst (λ n. Vouched o.entry.id n p.rx.rx_link_key header body inner outcome)
            o.same_prefix
            (subst (λ k. Vouched k p.allowed_src p.rx.rx_link_key header body inner outcome)
              o.same_id v))

    -- Whatever was received and sealed since a table was built from a configuration, what it hands
    -- on, a packet or a keepalive, comes from a peer of the configuration: the table selects the peer
    -- with a header that it reads off the datagram, the body opens under the session key for the
    -- epoch and the number of that header, which is derived from the configured secret of that peer,
    -- and a packet's inner source lies in the configured prefix of that peer.
    pub handed_on_is_Vouched :
        (datagram : List ℕ) (src : SocketAddr)
        → (ingest c net_contains reached datagram src).1 ≢ dropped
        → (tag : List ℕ) × (i : ℕ) × (header : Header) × (p : Peer) × (n : ℕ) × (q : RuntimePeer)
          × (inner : List ℕ) × (datagram_tag datagram ≡ some tag)
          × (select c reached datagram tag ≡ some (i, header))
          × (get_elem? reached.peers i ≡ some p)
          × (get_elem? cfg.peers n ≡ some q)
          × (p.id ≡ q.id)
          × Vouched q.id q.allowed_src
              (link_from c cfg q)
              header
              (drop header_len datagram)
              inner
              (ingest c net_contains reached datagram src).1
    handed_on_is_Vouched datagram src h = elim (ingest-cases reached datagram src) [
      | inl e ↦ absurd (h (rw e))
      | inr (i, header, p, ((tag, tagged, selected), found, e)) ↦
          let o = reached-IsOf i p found in
          let body = drop header_len datagram in
          let (inner, v) = ingest_peer-Vouched p header body src o.keyed (λ d. h (rw e d)) in
          (
            tag,
            i,
            header,
            p,
            o.index,
            o.entry,
            inner,
            tagged,
            selected,
            found,
            o.listed,
            o.same_id,
            rw e (Vouched-moved p o header body inner _ v),
          )
    ]

    -- The body opens under no session key of the link from a peer of the configuration.
    abbrev pub ForgedFor : List ℕ → RuntimePeer → Type 0
    ForgedFor body q =
        (epoch seq : ℕ)
        → open_body c (record { session_key = session_key c (link_from c cfg q) epoch }) seq body
          ≡ none

    -- Whatever was received and sealed since a table was built from a configuration, a datagram whose
    -- body opens under no session key derived from a configured secret, for any epoch and number,
    -- leaves the whole table as it was: sessions, endpoints and replay windows.
    pub unauthentic_leaves_table :
        (datagram : List ℕ) (src : SocketAddr)
        → All (ForgedFor (drop header_len datagram)) cfg.peers
        → ingest c net_contains reached datagram src ≡ (reached, dropped)
    unauthentic_leaves_table datagram src forged = elim (ingest-cases reached datagram src) [
      | inl e ↦ e
      | inr (i, header, p, (read, found, e)) ↦
          let o = reached-IsOf i p found in
          let body = drop header_len datagram in
          let f : ForgedFor body o.entry =
            All-get_elem? (ForgedFor body) cfg.peers o.index o.entry forged o.listed in
          let refused : open_body c (key_for c p.rx header.epoch) header.seq body ≡ none =
            subst
              (λ l.
                open_body c (record { session_key = session_key c l header.epoch }) header.seq body
                ≡ none)
              (sym o.same_link) (f header.epoch header.seq) in
          rw (e, ingest_peer-unauthentic p header body src o.keyed refused)
            (ap (λ ps. (record reached { peers = ps }, dropped)) (set_same reached.peers i p found))
    ]
