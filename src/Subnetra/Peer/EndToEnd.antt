-- ===== src/Subnetra/Peer/EndToEnd.antt =====
-- From a sender's transmit session to the receiver's table, src/subnetra/peer.rs.
use rove.Base.{ℕ, zero, suc, ◌+◌, ◌-◌, ◌^◌, ◌<◌}
use rove.Base.{
  ◌≡◌, sym, ap, ◌∙◌, ◌⊎◌, refl, inl, inr, Bool, true, false, some, List, [], ◌∷◌, arith,
}
use rove.Base.{if◌then◌else◌, Bool-cases}
use rove.Base.{length, get_elem?, take, drop, All, take-append_length, drop-append_length}
use mathlib.Core.List.{append-nil}
use rove.Base.Bytes.{xor_prefix}
use rove.Net.{SocketAddr, Ipv4Net}
use rove.Subnetra.Crypto.{
  Primitives, header_len, session_key, seal, open_body, open_body-seal, obfuscation_pad,
}
use rove.Subnetra.Wire.{seal_datagram}
use rove.Subnetra.Wire.Header
use rove.Subnetra.Wire.Header.{Header}
use rove.Subnetra.Wire.RoundTrip.{
  Fits, parse-to_bytes, sent_header, sealed_parts, datagram_tag-seal_datagram, demask-seal_datagram,
}
use rove.Subnetra.Replay
use rove.Subnetra.Session.{TxSession, RxSession, accept, accept_datagram, seal_next}
use rove.Subnetra.Session.Accept.{IsKeyed, key_for, newer_adopted, current_accepted}
use rove.Subnetra.Peer.{
  Peer, PeerTable, inner_packet, ipv4_src, lookup_id, trial, is_self_consistent, select_masked,
  select_clear, select, ingest_peer, ingest, seal_for,
}

-- The session takes the next number of the sender: its epoch is newer, or it is the current one and
-- the window takes the number.
abbrev pub IsAwaited : RxSession → TxSession → Type 0
IsAwaited rx ts =
    (rx.cur_epoch < ts.epoch)
    ⊎ ((rx.cur_epoch ≡ ts.epoch) × ((Replay.check_and_set rx.replay ts.next_seq).1 ≡ true))

-- The two ends of a link: the sender's transmit session, and the receiver's entry for the sender
-- at index `j` of its table.
pub record IsLinked (c : Primitives) (ts : TxSession) (t : PeerTable) (j : ℕ) (p : Peer)
    : Type 0 where
  pub stored : get_elem? t.peers j ≡ some p
  pub known : lookup_id ts.local_id t.by_id ≡ some j
  pub same_id : p.id ≡ ts.local_id
  pub same_mask : t.obfuscate ≡ ts.obfuscate
  pub trial_link : p.rx_link_key ≡ ts.tx_link_key
  pub same_link : p.rx.rx_link_key ≡ ts.tx_link_key
  pub keyed : ts.key ≡ record { session_key = session_key c ts.tx_link_key ts.epoch }
  pub keyed_rx : IsKeyed c p.rx
  pub awaited : IsAwaited p.rx ts
  pub positive : 0 < ts.epoch
  pub id_fits : ts.local_id < 2 ^ 16
  pub epoch_fits : ts.epoch < 2 ^ 64
  pub seq_fits : ts.next_seq < 2 ^ 64

module _ (c : Primitives) (net_contains : Ipv4Net → ℕ → Bool) (ts : TxSession)
    (inner : List ℕ) where
  abbrev pub sealed : List ℕ
  sealed =
      seal_datagram c ts.tx_link_key ts.key ts.local_id ts.epoch ts.next_seq 0 inner ts.obfuscate

  abbrev pub sealed_body : List ℕ
  sealed_body = seal c ts.key ts.next_seq inner

  abbrev pub sealed_tag : List ℕ
  sealed_tag = drop (length sealed_body - 16) sealed_body

  abbrev pub sealed_header : Header
  sealed_header = sent_header ts.local_id ts.epoch ts.next_seq 0

  -- The trial of the key of `q` gives a header that is not that of `q`.
  abbrev pub Refuses : Peer → Type 0
  Refuses q =
      (h : Header) × (trial c q sealed sealed_tag ≡ some h) × (is_self_consistent c q h ≡ false)

  select_masked_skip :
      (peers : List Peer) (i j : ℕ) (p : Peer)
      → get_elem? peers j ≡ some p
      → All Refuses (take j peers)
      → trial c p sealed sealed_tag ≡ some sealed_header
      → is_self_consistent c p sealed_header ≡ true
      → select_masked c i peers sealed sealed_tag ≡ some (i + j, sealed_header)
  unfolding select_masked
  select_masked_skip [] i j p at r t s = cc
  select_masked_skip (q ∷ peers) i zero p at r t s =
      let same : q ≡ p = cc in
      let read : trial c q sealed sealed_tag ≡ some sealed_header = rw same t in
      let own : is_self_consistent c q sealed_header ≡ true = rw same s in
      rw (read, own, select_masked) (ap (λ n. some (n, sealed_header)) (omega arith))
  select_masked_skip (q ∷ peers) i (suc j) p at ((h, read, other), r) t s =
      rw (read, other, select_masked)
        (select_masked_skip peers (i + 1) j p at r t s
          ∙ ap (λ n. some (n, sealed_header)) (omega arith))

  module _ {t : PeerTable} {j : ℕ} {p : Peer} (l : IsLinked c ts t j p) where
    sealed_Fits : Fits sealed_header
    sealed_Fits = record {
      version = omega arith;
      flags = omega arith;
      key_id = l.id_fits;
      epoch = l.epoch_fits;
      seq = l.seq_fits;
    }

    sealed_is_valid : Header.is_valid sealed_header ≡ true
    unfolding Header.is_valid
    sealed_is_valid = ground (arith, l.positive)

    sealed_parse : Header.parse (Header.to_bytes sealed_header) ≡ some sealed_header
    sealed_parse =
        ap Header.parse (sym (append-nil (Header.to_bytes sealed_header)))
        ∙ parse-to_bytes sealed_header [] sealed_Fits

    sealed-trial : ts.obfuscate ≡ true → trial c p sealed sealed_tag ≡ some sealed_header
    unfolding trial
    sealed-trial masked =
        rw
          (
            masked,
            l.trial_link,
            demask-seal_datagram c ts.tx_link_key ts.key ts.local_id ts.epoch ts.next_seq 0 inner
                (omega arith),
          )
          sealed_parse

    sealed_own : is_self_consistent c p sealed_header ≡ true
    unfolding is_self_consistent
    sealed_own = ground (arith, l.same_id, sealed_is_valid)

    sealed-parse_clear :
        ts.obfuscate ≡ false → Header.parse (take header_len sealed) ≡ some sealed_header
    sealed-parse_clear clear =
        let (front, shape, size, whole) =
          sealed_parts c ts.tx_link_key ts.key ts.local_id ts.epoch ts.next_seq 0 inner
            ts.obfuscate in
        ap (λ d. Header.parse (take header_len d)) whole
        ∙ ap Header.parse
            (take-append_length 20 front sealed_body size ∙ shape ∙ ap masked_or_not clear)
        ∙ sealed_parse
      where
        masked_or_not : Bool → List ℕ
        masked_or_not b =
            if b
            then xor_prefix (obfuscation_pad c ts.tx_link_key sealed_tag)
                (Header.to_bytes sealed_header)
            else Header.to_bytes sealed_header

    sealed-select :
        (ts.obfuscate ≡ true → All Refuses (take j t.peers))
        → select c t sealed sealed_tag ≡ some (j, sealed_header)
    unfolding select
    sealed-select r = elim (Bool-cases ts.obfuscate) [
      | inl masked ↦
          let here : t.obfuscate ≡ true = l.same_mask ∙ masked in
          rw here (
            select_masked_skip t.peers 0 j p l.stored (r masked) (sealed-trial masked) sealed_own
            ∙ ap (λ n. some (n, sealed_header)) (omega arith))
      | inr clear ↦
          let here : t.obfuscate ≡ false = l.same_mask ∙ clear in
          rw (here, sealed-parse_clear clear, l.known, sealed_is_valid, select_clear)
    ]

    sealed_opens : open_body c (key_for c p.rx ts.epoch) ts.next_seq sealed_body ≡ some inner
    sealed_opens =
        let same : key_for c p.rx ts.epoch ≡ ts.key = rw (l.keyed, l.same_link) in
        rw same (open_body-seal c ts.key ts.next_seq inner)

    sealed_accepted : (accept_datagram c p.rx sealed_header sealed_body).1 ≡ accept inner
    sealed_accepted = elim (l.awaited) [
      | inl newer ↦ (newer_adopted c p.rx sealed_header sealed_body inner newer sealed_opens).0
      | inr (here, fresh) ↦
          current_accepted c p.rx sealed_header sealed_body inner l.keyed_rx here l.positive fresh
            sealed_opens
    ]

    sealed-drop : drop header_len sealed ≡ sealed_body
    sealed-drop =
        let (front, shape, size, whole) =
          sealed_parts c ts.tx_link_key ts.key ts.local_id ts.epoch ts.next_seq 0 inner
            ts.obfuscate in
        ap (drop header_len) whole ∙ drop-append_length 20 front sealed_body size

    sealed_ingest_peer :
        (from : ℕ) (src : SocketAddr)
        → ipv4_src inner ≡ some from
        → net_contains p.allowed_src from ≡ true
        → (ingest_peer c net_contains p sealed_header sealed_body src).1 ≡ inner_packet p.id inner
    unfolding ingest_peer Header.is_keepalive
    sealed_ingest_peer from src read within =
        let taken = sealed_accepted in rw (taken, read, within, ingest_peer)

    pub sealed_ingested :
        (from : ℕ) (src : SocketAddr)
        → ipv4_src inner ≡ some from
        → net_contains p.allowed_src from ≡ true
        → (ts.obfuscate ≡ true → All Refuses (take j t.peers))
        → (ingest c net_contains t (seal_next c ts 0 inner).1 src).1
          ≡ inner_packet ts.local_id inner
    unfolding ingest seal_next
    sealed_ingested from src read within r =
        rw
          (
            datagram_tag-seal_datagram c ts.tx_link_key ts.key ts.local_id ts.epoch ts.next_seq 0
                inner ts.obfuscate,
            sealed-select r,
            l.stored,
            ingest,
          )
          (ap (λ b. (ingest_peer c net_contains p sealed_header b src).1) sealed-drop
            ∙ sealed_ingest_peer from src read within
            ∙ ap (λ id. inner_packet id inner) l.same_id)

-- A packet that a table seals, without flags, for a peer whose endpoint it knows goes to that endpoint, and the table
-- of that peer hands it on as it was, with the sender's id, from whatever address it arrives: in clear
-- or under obfuscation, in an epoch that the receiver has not seen or, in its current one, under a
-- number that its window takes. The conditions are that the two ends have the same link key and mode,
-- that the receiver finds the sender's id and its cached key is that of its epoch, that id, epoch and
-- number fit their widths and the epoch is not 0, that the packet's inner source lies in the sender's
-- prefix and, only under obfuscation, that the key of each peer before the sender gives a header that
-- is not that peer's.
pub sealed_is_handed_on :
    (c : Primitives) (net_contains : Ipv4Net → ℕ → Bool) (a : PeerTable) (i peer_id : ℕ) (q : Peer)
    (to : SocketAddr) (t : PeerTable) (j : ℕ) (p : Peer) (src : SocketAddr) (inner : List ℕ)
    (from : ℕ)
    → lookup_id peer_id a.by_id ≡ some i
    → get_elem? a.peers i ≡ some q
    → q.endpoint ≡ some to
    → IsLinked c q.tx t j p
    → ipv4_src inner ≡ some from
    → net_contains p.allowed_src from ≡ true
    → (q.tx.obfuscate ≡ true → All (Refuses c net_contains q.tx inner) (take j t.peers))
    → (datagram : List ℕ) × ((seal_for c net_contains a peer_id 0 inner).1 ≡ some (datagram, to))
      × ((ingest c net_contains t datagram src).1 ≡ inner_packet q.tx.local_id inner)
unfolding seal_for
sealed_is_handed_on c net_contains a i peer_id q to t j p src inner from known found there l read
      within r =
    (
      (seal_next c q.tx 0 inner).1,
      rw (known, found, there, seal_for) refl,
      sealed_ingested c net_contains q.tx inner l from src read within r,
    )
