-- ===== src/Subnetra/Session.antt =====
-- Receive and transmit state of one directional link, src/subnetra/session.rs.
pub mod Accept
pub mod Runs
pub mod Transmit
use rove.Base.{
  ℕ, zero, suc, ◌+◌, ◌-◌, ◌*◌, ◌/◌, ◌%◌, ◌^◌, ◌≤◌, ◌<◌, min, max, bit_and, bit_or, bit_xor,
}
use rove.Base.{
  ◌≡◌, refl, sym, ap, ◌∙◌, ◌≢◌, ◌↔◌, ◌⊎◌, inl, inr, Bool, true, false, not, ◌&&◌, ◌||◌, Option,
  none, some, List, [], ◌∷◌, ◌++◌, map, arith,
}
use rove.Base.{
  ltb, leb, ◌==◌, if◌then◌else◌, ltb→lt, lt→ltb, leb→le, le→leb, le→ltb_false, ==_iff, Bool-cases,
  Option-cases,
}
use rove.Base.{
  drop-append_add, All-take, All-append, replicate, length, get_elem?, set, take, drop, any, all,
  All, length-append, length-take, length-drop, take-append_length, drop-append_length,
  take-append-drop, any-append, length-set, get_elem?-set_self, get_elem?-set_ne,
}
use rove.Subnetra.Crypto.{Primitives, AeadKey, session_key, open_body}
use rove.Subnetra.Replay
use rove.Subnetra.Replay.{ReplayWindow}
use rove.Subnetra.Wire.Header.{Header}
use rove.Subnetra.Wire.{seal_datagram}

pub data RxOutcome : Type 0 where
  accept : List ℕ → RxOutcome
  discard : RxOutcome

pub record RxSession : Type 0 where
  pub rx_link_key : List ℕ
  pub cur_epoch : ℕ
  pub cur_key : Option AeadKey
  pub replay : ReplayWindow

pub record TxSession : Type 0 where
  pub tx_link_key : List ℕ
  pub epoch : ℕ
  pub key : AeadKey
  pub local_id : ℕ
  pub next_seq : ℕ
  pub obfuscate : Bool

unfoldable pub new_rx : List ℕ → RxSession
new_rx link = record { rx_link_key = link; cur_epoch = 0; cur_key = none; replay = Replay.new }

-- After authentication: the replay window decides.
unfoldable pub replay_check : RxSession → ℕ → List ℕ → RxSession × RxOutcome
replay_check s seq plaintext =
    let (replay, fresh) = Replay.check_and_set s.replay seq in
    (record s { replay = replay }, if fresh then accept plaintext else discard)

module _ (c : Primitives) where
  unfoldable pub with_epoch : List ℕ → ℕ → RxSession
  unfolding new_rx
  with_epoch link epoch = if epoch == 0 then new_rx link else record (new_rx link) {
    cur_epoch = epoch;
    cur_key = some (record { session_key = session_key c link epoch });
  }

  unfoldable pub same_epoch : RxSession → Header → List ℕ → RxSession × RxOutcome
  unfolding replay_check
  same_epoch s header body = elim (s.cur_key) [
    | none ↦ (s, discard)
    | some key ↦ elim (open_body c key header.seq body) [
      | none ↦ (s, discard)
      | some plaintext ↦ replay_check s header.seq plaintext
    ]
  ]

  -- A candidate key authenticates before any state is committed.
  unfoldable pub newer_epoch : RxSession → Header → List ℕ → RxSession × RxOutcome
  unfolding replay_check
  newer_epoch s header body =
      let candidate : AeadKey = record { session_key = session_key c s.rx_link_key header.epoch } in
      elim (open_body c candidate header.seq body) [
        | none ↦ (s, discard)
        | some plaintext ↦
            replay_check
              (record s {
                cur_epoch = header.epoch;
                cur_key = some candidate;
                replay = Replay.reset s.replay;
              })
              header.seq plaintext
      ]

  unfoldable pub accept_datagram : RxSession → Header → List ℕ → RxSession × RxOutcome
  unfolding same_epoch newer_epoch
  accept_datagram s header body =
      if ltb header.epoch s.cur_epoch
      then (s, discard)
      else (if header.epoch == s.cur_epoch
          then same_epoch s header body
          else newer_epoch s header body)

  unfoldable pub new_tx : List ℕ → ℕ → ℕ → Bool → TxSession
  new_tx link local_id epoch obfuscate = record {
    tx_link_key = link;
    epoch = epoch;
    key = record { session_key = session_key c link epoch };
    local_id = local_id;
    next_seq = 1;
    obfuscate = obfuscate;
  }

  -- `saturating_add` on a u64.
  unfoldable pub seal_next : TxSession → ℕ → List ℕ → TxSession × List ℕ
  seal_next s flags plaintext = (
    record s { next_seq = min (s.next_seq + 1) (2 ^ 64 - 1) },
    seal_datagram c s.tx_link_key s.key s.local_id s.epoch s.next_seq flags plaintext s.obfuscate,
  )
