-- ===== src/Subnetra/Replay/Runs.antt =====
-- Runs of the window over any order of arrival.
use rove.Base.{ℕ, ◌+◌, ◌<◌}
use rove.Base.{◌≡◌, refl, ap, ◌∙◌, inl, inr, true, false, List, [], ◌∷◌, arith}
use rove.Base.{ltb, if◌then◌else◌, Bool-cases}
use rove.Subnetra.Replay.{ReplayWindow, new, check_and_set, run}
use rove.Subnetra.Replay.Window.{contains, Tracks, new-Tracks, check_and_set_exact}

-- No number stands twice.
abbrev pub Distinct : List ℕ → Type 0
Distinct [] = Unit
Distinct (x ∷ xs) = (contains x xs ≡ false) × Distinct xs

step-Distinct :
    (seen : List ℕ) (w : ReplayWindow) (seq : ℕ)
    → Tracks seen w
    → Distinct seen
    → Distinct (if (check_and_set w seq).1 then seq ∷ seen else seen)
step-Distinct seen w seq t d = elim (Bool-cases (check_and_set w seq).1) [
  | inl fresh ↦ rw fresh (ground (arith, (check_and_set_exact seen w seq t).0), d)
  | inr old ↦ rw old d
]

run_keeps :
    (seqs seen : List ℕ) (w : ReplayWindow)
    → Tracks seen w
    → Distinct seen
    → Tracks (run w seen seqs).1 (run w seen seqs).0 × Distinct (run w seen seqs).1
unfolding run
run_keeps [] seen w t d = (t, d)
run_keeps (seq ∷ rest) seen w t d =
    run_keeps rest (if (check_and_set w seq).1 then seq ∷ seen else seen) (check_and_set w seq).0
      (check_and_set_exact seen w seq t).1 (step-Distinct seen w seq t d)

-- Whatever numbers arrive in whatever order, no number is accepted twice, and the window that is
-- left tracks all that were accepted.
run_no_replay :
    (seqs : List ℕ) → Distinct (run new [] seqs).1 × Tracks (run new [] seqs).1 (run new [] seqs).0
run_no_replay seqs = let kept = run_keeps seqs [] new new-Tracks tt in (kept.1, kept.0)

-- The numbers are new to `seen`, and each is less than 64 behind the highest before it.
abbrev pub IsTimely : ℕ → List ℕ → List ℕ → Type 0
IsTimely highest seen [] = Unit
IsTimely highest seen (seq ∷ rest) =
    (highest < seq + 64)
    × (contains seq seen ≡ false)
    × IsTimely (if ltb highest seq then seq else highest) (seq ∷ seen) rest

highest-check_and_set :
    (w : ReplayWindow) (seq : ℕ)
    → (check_and_set w seq).0.highest ≡ (if ltb w.highest seq then seq else w.highest)
unfolding check_and_set
highest-check_and_set w seq = ground arith

abbrev pub reverse_onto : List ℕ → List ℕ → List ℕ
reverse_onto [] seen = seen
reverse_onto (seq ∷ rest) seen = reverse_onto rest (seq ∷ seen)

run_timely :
    (seqs seen : List ℕ) (w : ReplayWindow)
    → Tracks seen w
    → IsTimely w.highest seen seqs
    → (run w seen seqs).1 ≡ reverse_onto seqs seen
unfolding run
run_timely [] seen w t h = refl
run_timely (seq ∷ rest) seen w t (near, fresh, later) =
    let exact = check_and_set_exact seen w seq t in
    let accepted : (check_and_set w seq).1 ≡ true = ground (arith, exact.0) in
    ap (λ b. (run (check_and_set w seq).0 (if b then seq ∷ seen else seen) rest).1) accepted
    ∙ run_timely rest (seq ∷ seen) (check_and_set w seq).0 (rw accepted at exact.1)
        (rw highest-check_and_set later)

-- Nothing is lost: numbers that are all different, each less than 64 behind the highest before it,
-- are all accepted, in whatever order they arrive.
pub run_no_loss : (seqs : List ℕ) → IsTimely 0 [] seqs → (run new [] seqs).1 ≡ reverse_onto seqs []
unfolding new
run_no_loss seqs h = run_timely seqs [] new new-Tracks h
