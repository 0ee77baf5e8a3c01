-- ===== src/Subnetra/Session/Runs.antt =====
-- Runs of datagrams through one receive session, src/subnetra/session.rs.
use rove.Base.{ℕ, ◌≤◌, ◌<◌}
use rove.Base.{◌≡◌, refl, inl, inr, Bool, true, false, some, List, [], ◌∷◌, arith}
use rove.Base.{ltb, ◌==◌, if◌then◌else◌, ==_iff, Bool-cases, Option-cases}
use rove.Base.{All}
use rove.Subnetra.Crypto.{Primitives, AeadKey, session_key, open_body}
use rove.Subnetra.Replay
use rove.Subnetra.Replay.Window.{contains, Tracks, new-Tracks, check_and_set_exact}
use rove.Subnetra.Wire.Header.{Header}
use rove.Subnetra.Session.{
  RxOutcome, accept, discard, RxSession, new_rx, with_epoch, replay_check, same_epoch, newer_epoch,
  accept_datagram,
}

-- The numbers accepted in epoch `e`.
abbrev pub of_epoch : ℕ → List (ℕ × ℕ) → List ℕ
of_epoch e [] = []
of_epoch e ((f, q) ∷ seen) = if f == e then q ∷ of_epoch e seen else of_epoch e seen

-- No epoch and number stand twice.
abbrev pub DistinctPairs : List (ℕ × ℕ) → Type 0
DistinctPairs [] = Unit
DistinctPairs ((e, q) ∷ seen) = (contains q (of_epoch e seen) ≡ false) × DistinctPairs seen

abbrev pub UpTo : ℕ → List (ℕ × ℕ) → Type 0
UpTo m = All (λ p. p.0 ≤ m)

-- No epoch in `seen` is above the current one, and the window tracks the current one's numbers.
pub record Remembers (seen : List (ℕ × ℕ)) (s : RxSession) : Type 0 where
  pub up_to : UpTo s.cur_epoch seen
  pub window : Tracks (of_epoch s.cur_epoch seen) s.replay

of_epoch_above : (seen : List (ℕ × ℕ)) (m e : ℕ) → UpTo m seen → m < e → of_epoch e seen ≡ []
of_epoch_above [] m e h lt = refl
of_epoch_above ((f, q) ∷ seen) m e (le, h) lt = ground (arith, of_epoch_above seen m e h lt)

UpTo-mono : (seen : List (ℕ × ℕ)) (m n : ℕ) → UpTo m seen → m ≤ n → UpTo n seen
UpTo-mono [] m n h le = tt
UpTo-mono ((f, q) ∷ seen) m n (l, h) le = (omega arith, UpTo-mono seen m n h le)

-- What is accepted next, with the pair that the header claims.
abbrev pub record_pair : Header → RxOutcome → List (ℕ × ℕ) → List (ℕ × ℕ)
record_pair header (accept _) seen = (header.epoch, header.seq) ∷ seen
record_pair header discard seen = seen

abbrev Good : Header → List (ℕ × ℕ) → RxSession × RxOutcome → Type 0
Good header seen r =
    DistinctPairs (record_pair header r.1 seen) × Remembers (record_pair header r.1 seen) r.0

unchanged-Good :
    (header : Header) (seen : List (ℕ × ℕ)) (s : RxSession)
    → DistinctPairs seen
    → Remembers seen s
    → Good header seen (s, discard)
unchanged-Good header seen s d r = (d, r)

replay_check-Good :
    (header : Header) (seen : List (ℕ × ℕ)) (s : RxSession) (text : List ℕ)
    → header.epoch ≡ s.cur_epoch
    → DistinctPairs seen
    → Remembers seen s
    → Good header seen (replay_check s header.seq text)
unfolding replay_check
replay_check-Good header seen s text here d r =
    let exact = check_and_set_exact (of_epoch s.cur_epoch seen) s.replay header.seq r.window in
    elim (Bool-cases (Replay.check_and_set s.replay header.seq).1) [
      | inl fresh ↦
          let same : (header.epoch == s.cur_epoch) ≡ true = ground arith in
          rw fresh (
            (rw here (ground (arith, exact.0)), d),
            record { up_to = (omega arith, r.up_to); window = rw same (rw fresh at exact.1) },
          )
      | inr old ↦ rw old (d, record { up_to = r.up_to; window = rw old at exact.1 })
    ]

module _ (c : Primitives) (header : Header) (seen : List (ℕ × ℕ)) (s : RxSession)
    (body : List ℕ) where
  same_epoch-Good :
      header.epoch ≡ s.cur_epoch
      → DistinctPairs seen
      → Remembers seen s
      → Good header seen (same_epoch c s header body)
  unfolding same_epoch
  same_epoch-Good here d r = elim (Option-cases s.cur_key) [
    | inl bare ↦ rw (bare, same_epoch) (unchanged-Good header seen s d r)
    | inr (key, cached) ↦ elim (Option-cases (open_body c key header.seq body)) [
      | inl forged ↦ rw (cached, forged, same_epoch) (unchanged-Good header seen s d r)
      | inr (text, opened) ↦
          rw (cached, opened, same_epoch) (replay_check-Good header seen s text here d r)
    ]
  ]

  newer_epoch-Good :
      s.cur_epoch < header.epoch
      → DistinctPairs seen
      → Remembers seen s
      → Good header seen (newer_epoch c s header body)
  unfolding newer_epoch
  newer_epoch-Good newer d r =
      let candidate : AeadKey = record { session_key = session_key c s.rx_link_key header.epoch } in
      elim (Option-cases (open_body c candidate header.seq body)) [
        | inl forged ↦ rw (forged, newer_epoch) (unchanged-Good header seen s d r)
        | inr (text, opened) ↦
            rw (opened, newer_epoch)
              (replay_check-Good header seen
                (record s {
                  cur_epoch = header.epoch;
                  cur_key = some candidate;
                  replay = Replay.reset s.replay;
                })
                text refl d
                (record {
                  up_to = UpTo-mono seen s.cur_epoch header.epoch r.up_to (omega arith);
                  window =
                      rw (of_epoch_above seen s.cur_epoch header.epoch r.up_to newer)
                        (unfold Replay.reset Replay.new in new-Tracks);
                }))
      ]

  accept-Good :
      DistinctPairs seen → Remembers seen s → Good header seen (accept_datagram c s header body)
  unfolding accept_datagram
  accept-Good d r = elim (Bool-cases (ltb header.epoch s.cur_epoch)) [
    | inl old ↦ rw old (unchanged-Good header seen s d r)
    | inr reached ↦ elim (Bool-cases (header.epoch == s.cur_epoch)) [
      | inl here ↦ rw (reached, here) (same_epoch-Good ((==_iff _ _).0 here) d r)
      | inr newer ↦ rw (reached, newer) (newer_epoch-Good (ground arith) d r)
    ]
  ]

module _ (c : Primitives) where
  -- The session after the datagrams in order of arrival, and the pairs accepted, the newest first.
  unfoldable pub run : RxSession → List (ℕ × ℕ) → List (Header × List ℕ) → RxSession × List (ℕ × ℕ)
  run s seen [] = (s, seen)
  run s seen ((header, body) ∷ rest) =
      run (accept_datagram c s header body).0
        (record_pair header (accept_datagram c s header body).1 seen) rest

  run_keeps :
      (arrivals : List (Header × List ℕ)) (seen : List (ℕ × ℕ)) (s : RxSession)
      → DistinctPairs seen
      → Remembers seen s
      → DistinctPairs (run s seen arrivals).1
        × Remembers (run s seen arrivals).1 (run s seen arrivals).0
  unfolding run
  run_keeps [] seen s d r = (d, r)
  run_keeps ((header, body) ∷ rest) seen s d r =
      let (d', r') = accept-Good c header seen s body d r in
      run_keeps rest (record_pair header (accept_datagram c s header body).1 seen)
        (accept_datagram c s header body).0 d' r'

  -- A session that starts in any epoch, with nothing accepted, never accepts the same epoch and
  -- number twice, whatever datagrams arrive in whatever order.
  pub session_no_replay :
      (link : List ℕ) (epoch : ℕ) (arrivals : List (Header × List ℕ))
      → DistinctPairs (run (with_epoch c link epoch) [] arrivals).1
  unfolding with_epoch
  session_no_replay link epoch arrivals =
      (run_keeps arrivals [] (with_epoch c link epoch) tt
        (record { up_to = tt; window = fresh (epoch == 0) })).0
    where
      fresh :
          (b : Bool)
          → Tracks []
              (if b then new_rx link else record (new_rx link) {
                cur_epoch = epoch;
                cur_key = some (record { session_key = session_key c link epoch });
              }).replay
      fresh true = new-Tracks
      fresh false = new-Tracks
