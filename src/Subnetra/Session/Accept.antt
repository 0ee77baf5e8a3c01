-- ===== src/Subnetra/Session/Accept.antt =====
-- What one datagram may do to a receive session, and what a run of datagrams may.
use rove.Base.{ℕ, ◌≤◌, ◌<◌}
use rove.Base.{◌≡◌, refl, Bool, true, false, none, some, List, [], arith}
use rove.Base.{ltb, ◌==◌, if◌then◌else◌}
use rove.Subnetra.Crypto.{Primitives, AeadKey, session_key, open_body}
use rove.Subnetra.Replay
use rove.Subnetra.Replay.{ReplayWindow}
use rove.Subnetra.Replay.Window.{new-Tracks, check_and_set_exact}
use rove.Subnetra.Wire.Header.{Header}
use rove.Subnetra.Session.{
  RxOutcome, accept, discard, RxSession, accept_datagram, same_epoch, replay_check,
}

abbrev pub accepted : RxOutcome → Bool
accepted (accept _) = true
accepted discard = false

module _ (c : Primitives) where
  abbrev pub key_for : RxSession → ℕ → AeadKey
  key_for s epoch = record { session_key = session_key c s.rx_link_key epoch }

  -- The cached key is that of the current epoch, and there is none before the first.
  pub record IsKeyed (s : RxSession) : Type 0 where
    pub cached : s.cur_key ≡ (if s.cur_epoch == 0 then none else some (key_for s s.cur_epoch))

  -- A datagram that does not open under the session key of its own epoch changes no state and is
  -- dropped, whatever epoch and number its header claims.
  pub unauthentic_unchanged :
      (s : RxSession) (header : Header) (body : List ℕ)
      → IsKeyed s
      → open_body c (key_for s header.epoch) header.seq body ≡ none
      → accept_datagram c s header body ≡ (s, discard)
  unfolding accept_datagram
  unauthentic_unchanged s header body k forged = ground arith

  -- The epoch never goes back, and a datagram of an older epoch changes nothing.
  epoch_forward :
      (s : RxSession) (header : Header) (body : List ℕ)
      → (s.cur_epoch ≤ (accept_datagram c s header body).0.cur_epoch)
        × (header.epoch < s.cur_epoch → accept_datagram c s header body ≡ (s, discard))
  unfolding accept_datagram
  epoch_forward s header body = ground arith

  pub accept-IsKeyed :
      (s : RxSession) (header : Header) (body : List ℕ)
      → IsKeyed s
      → IsKeyed (accept_datagram c s header body).0
  unfolding accept_datagram
  accept-IsKeyed s header body k = ground arith

  -- An authentic datagram of a newer epoch is accepted, and only then is the epoch adopted.
  pub newer_adopted :
      (s : RxSession) (header : Header) (body text : List ℕ)
      → s.cur_epoch < header.epoch
      → open_body c (key_for s header.epoch) header.seq body ≡ some text
      → ((accept_datagram c s header body).1 ≡ accept text)
        × ((accept_datagram c s header body).0.cur_epoch ≡ header.epoch)
        × ((accept_datagram c s header body).0.cur_key ≡ some (key_for s header.epoch))
  unfolding accept_datagram Replay.reset Replay.new
  newer_adopted s header body text newer opened =
      let exact = (check_and_set_exact [] Replay.new header.seq new-Tracks).0 in
      ground (arith, exact)

  nothing_less : (n : ℕ) → ltb n n ≡ false
  nothing_less n = ground arith

  same_number : (n : ℕ) → (n == n) ≡ true
  same_number n = ground arith

  -- An authentic datagram of the current epoch is accepted, if the window takes its number.
  pub current_accepted :
      (s : RxSession) (header : Header) (body text : List ℕ)
      → IsKeyed s
      → s.cur_epoch ≡ header.epoch
      → 0 < header.epoch
      → (Replay.check_and_set s.replay header.seq).1 ≡ true
      → open_body c (key_for s header.epoch) header.seq body ≡ some text
      → (accept_datagram c s header body).1 ≡ accept text
  unfolding accept_datagram same_epoch replay_check
  current_accepted s header body text k here positive fresh opened =
      let cached : s.cur_key ≡ some (key_for s header.epoch) =
        ground (arith, k.cached, here, positive) in
      rw
        (
          here,
          nothing_less header.epoch,
          same_number header.epoch,
          same_epoch,
          cached,
          opened,
          replay_check,
          fresh,
        )
        refl
