-- ===== src/Subnetra/Replay/Window.antt =====
-- What the window remembers of the sequence numbers that it has accepted.
use rove.Base.{ℕ, zero, suc, ◌+◌, ◌-◌, ◌^◌, ◌≤◌, ◌<◌, bit_and, bit_or}
use rove.Base.{◌≡◌, refl, inl, inr, Bool, true, false, not, ◌&&◌, List, [], ◌∷◌, arith}
use rove.Base.{tests, ltb, leb, ◌==◌, if◌then◌else◌, ltb→lt, Bool-cases}
use rove.Base.{any}
use rove.Base.Bits.{bit, shl64, bit-shl64, bit-bit_or, bit-pow, bit_and-pow, bit-zero, bit-le-one}
use rove.Subnetra.Replay.{ReplayWindow, window, new, check_and_set}
use native.Mathlib.Nat.{one-le-pow}

abbrev pub contains : ℕ → List ℕ → Bool
contains seq = any (λ s. s == seq)

-- The window of the accepted numbers `seen`: none is above `highest`, and bit `i` says whether
-- `highest - i` is one of them.
pub record Tracks (seen : List ℕ) (w : ReplayWindow) : Type 0 where
  pub below : (s : ℕ) → contains s seen ≡ true → s ≤ w.highest
  pub bits :
      (i : ℕ)
      → i < 64
      → i ≤ w.highest
      → bit w.bitmap i ≡ (if contains (w.highest - i) seen then 1 else 0)

module _ {seen : List ℕ} {w : ReplayWindow} (t : Tracks seen w) where
  above : (s : ℕ) → w.highest < s → contains s seen ≡ false
  above s h = ground (arith, t.below s)

-- The bitmap after the window has moved up by `shift`.
shifted : ℕ → ℕ → ℕ
shifted bitmap shift = bit_or (if leb window shift then 0 else shl64 bitmap shift) 1

bit-shifted_zero : (b shift : ℕ) → bit (shifted b shift) 0 ≡ 1
unfolding shifted
bit-shifted_zero b shift = omega (
  arith,
  bit-bit_or 0 (if leb window shift then 0 else shl64 b shift) 1,
  bit-le-one 0 (if leb window shift then 0 else shl64 b shift),
)

bit-shifted :
    (b shift i : ℕ)
    → 0 < i
    → i < 64
    → bit (shifted b shift) i ≡ (if ltb i shift then 0 else bit b (i - shift))
unfolding shifted
bit-shifted b shift i pos h = ground (
  arith,
  bit-bit_or i (if leb window shift then 0 else shl64 b shift) 1,
  bit-zero i,
  bit-shl64 shift i b h,
  bit-pow i 0,
)

-- Bit `i` of the new bitmap after `seq` has become the highest.
advance-Tracks :
    {seen : List ℕ} {w : ReplayWindow} (seq : ℕ)
    → Tracks seen w
    → w.highest < seq
    → Tracks (seq ∷ seen) (record w { bitmap = shifted w.bitmap (seq - w.highest); highest = seq })
advance-Tracks {seen} {w} seq t h = record {
  below = λ s m. ground (arith, t.below s);
  bits = moved;
}
  where
    moved :
        (i : ℕ)
        → i < 64
        → i ≤ seq
        → bit (shifted w.bitmap (seq - w.highest)) i
          ≡ (if contains (seq - i) (seq ∷ seen) then 1 else 0)
    moved zero hi hs = ground (arith, bit-shifted_zero w.bitmap (seq - w.highest))
    moved (suc i) hi hs = elim (Bool-cases (ltb (suc i) (seq - w.highest))) [
      | inl gap ↦ ground (
        arith,
        bit-shifted w.bitmap (seq - w.highest) (suc i),
        above t (seq - suc i) (omega (tests, gap)),
      )
      | inr old ↦
          let back : w.highest - (suc i - (seq - w.highest)) ≡ seq - suc i = ground arith in
          let kept : bit w.bitmap (suc i - (seq - w.highest))
              ≡ (if contains (seq - suc i) seen then 1 else 0) =
            rw back at (t.bits (suc i - (seq - w.highest)) (omega arith) (ground arith)) in
          ground (arith, bit-shifted w.bitmap (seq - w.highest) (suc i), kept)
    ]

mark-Tracks :
    {seen : List ℕ} {w : ReplayWindow} (seq : ℕ)
    → Tracks seen w
    → seq ≤ w.highest
    → w.highest - seq < 64
    → Tracks (seq ∷ seen) (record w { bitmap = bit_or w.bitmap (2 ^ (w.highest - seq)) })
mark-Tracks {seen} {w} seq t h near = record {
  below = λ s m. ground (arith, t.below s);
  bits = λ i hi hs.
      ground (
        arith,
        t.bits i,
        bit-bit_or i w.bitmap (2 ^ (w.highest - seq)),
        bit-pow i (w.highest - seq),
      );
}

bit_set :
    {seen : List ℕ} {w : ReplayWindow} (seq : ℕ)
    → Tracks seen w
    → seq ≤ w.highest
    → w.highest - seq < 64
    → not (bit_and w.bitmap (2 ^ (w.highest - seq)) == 0) ≡ contains seq seen
bit_set {seen} {w} seq t h near =
    let back : w.highest - (w.highest - seq) ≡ seq = omega arith in
    let stored : bit w.bitmap (w.highest - seq) ≡ (if contains seq seen then 1 else 0) =
      rw back at (t.bits (w.highest - seq) near (omega arith)) in
    elim (Bool-cases (contains seq seen)) [
      | inl old ↦ rw (bit_and-pow, stored, old) (ground (arith, one-le-pow (w.highest - seq) 2))
      | inr new ↦ rw (bit_and-pow, stored, new) (ground arith)
    ]

-- `seq` is accepted exactly if it has not been accepted before and is less than 64 behind the
-- highest number, and the window then tracks it too. After a refusal it tracks what it did before.
pub check_and_set_exact :
    (seen : List ℕ) (w : ReplayWindow) (seq : ℕ)
    → Tracks seen w
    → ((check_and_set w seq).1 ≡ (not (contains seq seen) && ltb w.highest (seq + 64)))
      × Tracks (if (check_and_set w seq).1 then seq ∷ seen else seen) (check_and_set w seq).0
unfolding check_and_set shifted
check_and_set_exact seen w seq t = elim (Bool-cases (ltb w.highest seq)) [
  | inl ahead ↦
      rw ahead (ground (arith, above t seq), advance-Tracks seq t (ltb→lt w.highest seq ahead))
  | inr behind ↦ elim (Bool-cases (leb window (w.highest - seq))) [
    | inl old ↦ rw (behind, old) (ground arith, t)
    | inr near ↦
        let le : seq ≤ w.highest = ground arith in
        let room : w.highest - seq < 64 = ground arith in
        elim (Bool-cases (contains seq seen)) [
          | inl again ↦ rw (behind, near, bit_set seq t le room, again) (refl, t)
          | inr fresh ↦
              rw (behind, near, bit_set seq t le room, fresh)
                (ground arith, mark-Tracks seq t le room)
        ]
  ]
]

pub new-Tracks : Tracks [] new
unfolding new
new-Tracks = record { below = λ s m. cc; bits = λ i h k. bit-zero i }
