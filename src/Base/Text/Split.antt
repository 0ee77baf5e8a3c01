-- ===== src/Base/Text/Split.antt =====
-- Splitting at a byte and joining with it undo one another.
use Prim.Native.Nat.{ℕ}
use mathlib.Core.Path.{◌≡◌, refl, ap, ◌∙◌}
use mathlib.Core.Bool.{false}
use mathlib.Core.Logic.{inl, inr, ◌≢◌}
use mathlib.Core.List.{List, [], ◌∷◌, ◌++◌}
use native.Mathlib.Omega.{arith}
use rove.Base.Tests.{◌==◌, Bool-cases}
use rove.Base.Lists.{All}
use rove.Base.Text.{Text, split_on, join_with, prepend}

-- No byte of the word is `d`.
abbrev pub IsFree : ℕ → Text → Type 0
IsFree d = All (λ c. (c == d) ≡ false)

prepend-IsFree :
    (d c : ℕ) (ws : List Text)
    → (c == d) ≡ false
    → All (IsFree d) ws
    → All (IsFree d) (prepend c ws)
prepend-IsFree d c [] h f = ((h, tt), tt)
prepend-IsFree d c (w ∷ ws) h (f, fs) = ((h, f), fs)

pub split_on-IsFree : (d : ℕ) (s : Text) → All (IsFree d) (split_on d s)
unfolding split_on
split_on-IsFree d [] = (tt, tt)
split_on-IsFree d (c ∷ s) = elim (Bool-cases (c == d)) [
  | inl at ↦ rw at (tt, split_on-IsFree d s)
  | inr off ↦ rw off (prepend-IsFree d c (split_on d s) off (split_on-IsFree d s))
]

split_on_word : (d : ℕ) (w : Text) → IsFree d w → split_on d w ≡ w ∷ []
unfolding split_on
split_on_word d [] f = refl
split_on_word d (c ∷ w) (h, f) = rw (h, split_on_word d w f)

pub split_on_front : (d : ℕ) (w s : Text) → IsFree d w → split_on d (w ++ d ∷ s) ≡ w ∷ split_on d s
unfolding split_on
split_on_front d [] s f = ground arith
split_on_front d (c ∷ w) s (h, f) = rw (h, split_on_front d w s f)

pub split_on-join_with :
    (d : ℕ) (w : Text) (ws : List Text)
    → All (IsFree d) (w ∷ ws)
    → split_on d (join_with d (w ∷ ws)) ≡ w ∷ ws
unfolding join_with
split_on-join_with d w [] (f, fs) = split_on_word d w f
split_on-join_with d w (v ∷ ws) (f, fs) =
    split_on_front d w (join_with d (v ∷ ws)) f ∙ ap (λ l. w ∷ l) (split_on-join_with d v ws fs)

join_with-prepend : (d c : ℕ) (ws : List Text) → join_with d (prepend c ws) ≡ c ∷ join_with d ws
unfolding join_with
join_with-prepend d c [] = refl
join_with-prepend d c (w ∷ []) = refl
join_with-prepend d c (w ∷ v ∷ ws) = refl

join_with-empty_front :
    (d : ℕ) (w : Text) (ws : List Text) → join_with d ([] ∷ w ∷ ws) ≡ d ∷ join_with d (w ∷ ws)
unfolding join_with
join_with-empty_front d w ws = refl

split_on-cons : (d : ℕ) (s : Text) → (w : Text) × (ws : List Text) × (split_on d s ≡ w ∷ ws)
unfolding split_on
split_on-cons d [] = ([], [], refl)
split_on-cons d (c ∷ s) = elim (Bool-cases (c == d)) [
  | inl at ↦ rw at ([], split_on d s, refl)
  | inr off ↦ rw off (grown (split_on d s))
]
  where
    grown : (ws : List Text) → (v : Text) × (vs : List Text) × (prepend c ws ≡ v ∷ vs)
    grown [] = (c ∷ [], [], refl)
    grown (w ∷ ws) = (c ∷ w, ws, refl)

pub join_with-split_on : (d : ℕ) (s : Text) → join_with d (split_on d s) ≡ s
unfolding split_on
join_with-split_on d [] = unfold join_with in refl
join_with-split_on d (c ∷ s) = elim (Bool-cases (c == d)) [
  | inl at ↦ rw at (empty (split_on-cons d s) ∙ ground (arith, at, join_with-split_on d s))
  | inr off ↦
      rw off (join_with-prepend d c (split_on d s) ∙ ap (λ t. c ∷ t) (join_with-split_on d s))
]
  where
    empty :
        (w : Text) × (ws : List Text) × (split_on d s ≡ w ∷ ws)
        → join_with d ([] ∷ split_on d s) ≡ d ∷ join_with d (split_on d s)
    empty (w, ws, e) = rw e (join_with-empty_front d w ws)

-- A split has at least one part.
pub split_on-nonempty : (d : ℕ) (s : Text) → split_on d s ≢ []
split_on-nonempty d s e = let (w, ws, parts) = split_on-cons d s in cc
