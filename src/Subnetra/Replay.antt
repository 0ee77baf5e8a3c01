-- ===== src/Subnetra/Replay.antt =====
-- The anti-replay window, src/subnetra/replay.rs. A u64 is a native number below 2 ^ 64.
pub mod Window
pub mod Runs
use rove.Base.{
  ℕ, ◌-◌, ◌*◌, ◌^◌, Bool, true, false, not, ltb, leb, ◌==◌, if◌then◌else◌, bit_and, bit_or, List,
  [], ◌∷◌,
}
use rove.Base.Bits.{shl64}

abbrev pub window : ℕ
window = 64

pub record ReplayWindow : Type 0 where
  pub highest : ℕ
  pub bitmap : ℕ

unfoldable pub new : ReplayWindow
new = record { highest = 0; bitmap = 0 }

unfoldable pub reset : ReplayWindow → ReplayWindow
reset w = record w { highest = 0; bitmap = 0 }

-- The new state, and whether the datagram is fresh.
unfoldable pub check_and_set : ReplayWindow → ℕ → ReplayWindow × Bool
check_and_set w seq =
    if ltb w.highest seq
    then (
      record w {
        bitmap =
            bit_or (if leb window (seq - w.highest) then 0 else shl64 w.bitmap (seq - w.highest)) 1;
        highest = seq;
      },
      true,
    )
    else (if leb window (w.highest - seq)
        then (w, false)
        else (if not (bit_and w.bitmap (2 ^ (w.highest - seq)) == 0)
            then (w, false)
            else (record w { bitmap = bit_or w.bitmap (2 ^ (w.highest - seq)) }, true)))

-- A run over the sequence numbers of the datagrams in order of arrival, and those accepted, the
-- newest first.
unfoldable pub run : ReplayWindow → List ℕ → List ℕ → ReplayWindow × List ℕ
run w seen [] = (w, seen)
run w seen (seq ∷ rest) =
    run (check_and_set w seq).0 (if (check_and_set w seq).1 then seq ∷ seen else seen) rest
