-- ===== src/Base/Assoc.antt =====
-- Maps as association lists with each key once.
use Prim.Native.Nat.{◌+◌, ◌≤◌}
use mathlib.Core.Path.{◌≡◌, sym, subst}
use mathlib.Core.Logic.{inl, inr}
use mathlib.Core.Bool.{Bool, true, false, ◌||◌}
use mathlib.Core.Option.{Option, none, some}
use mathlib.Core.List.{List, [], ◌∷◌}
use native.Mathlib.Omega.{arith}
use rove.Base.Tests.{if◌then◌else◌, Bool-cases}
use rove.Base.Lists.{All, length}
use rove.Base.Eq.{Eq, same}

module _ {K V : Type 0} ⦃e : Eq K⦄ where
  unfoldable pub find : List (K × V) → K → Option V
  find [] key = none
  find ((k, v) ∷ m) key = let rest = find m key in if same k key then some v else rest

  abbrev pub has_key : List (K × V) → K → Bool
  has_key [] key = false
  has_key ((k, v) ∷ m) key = same k key || has_key m key

  unfoldable pub insert : List (K × V) → K → V → List (K × V)
  insert [] key v = (key, v) ∷ []
  insert ((k, w) ∷ m) key v =
      let rest = insert m key v in if same k key then (k, v) ∷ m else (k, w) ∷ rest

  pub find-insert :
      (m : List (K × V)) (key : K) (v : V) (other : K)
      → find (insert m key v) other ≡ (if same key other then some v else find m other)
  unfolding find insert
  find-insert [] key v other = ground arith
  find-insert ((k, w) ∷ m) key v other =
      ground
        (arith, e.beq_iff k key, e.beq_iff k other, e.beq_iff key other, find-insert m key v other)

  unfoldable pub remove : List (K × V) → K → List (K × V)
  remove [] key = []
  remove ((k, v) ∷ m) key = let rest = remove m key in if same k key then rest else (k, v) ∷ rest

  module _ (P : K × V → Type 0) where
    pub find-All : (m : List (K × V)) (key : K) (v : V) → All P m → find m key ≡ some v → P (key, v)
    unfolding find
    find-All [] key v h f = cc
    find-All ((k, w) ∷ m) key v (h, hs) f = elim (Bool-cases (same k key)) [
      | inl at ↦
          let here : some w ≡ some v = rw at at f in
          subst (λ x. P (x, v)) ((e.beq_iff k key).0 at) (subst (λ x. P (k, x)) (cc) h)
      | inr off ↦ find-All m key v hs (rw off at f)
    ]

    pub All-insert :
        (m : List (K × V)) (key : K) (v : V) → All P m → P (key, v) → All P (insert m key v)
    unfolding insert
    All-insert [] key v h p = (p, tt)
    All-insert ((k, w) ∷ m) key v (h, hs) p = elim (Bool-cases (same k key)) [
      | inl at ↦ rw (at, All) (subst (λ x. P (x, v)) (sym ((e.beq_iff k key).0 at)) p, hs)
      | inr off ↦ rw (off, All) (h, All-insert m key v hs p)
    ]

    pub All-remove : (m : List (K × V)) (key : K) → All P m → All P (remove m key)
    unfolding remove
    All-remove [] key h = tt
    All-remove ((k, w) ∷ m) key (h, hs) = elim (Bool-cases (same k key)) [
      | inl at ↦ rw (at, All) (All-remove m key hs)
      | inr off ↦ rw (off, All) (h, All-remove m key hs)
    ]

  pub length-remove : (m : List (K × V)) (key : K) → length (remove m key) ≤ length m
  unfolding remove
  length-remove [] key = omega arith
  length-remove ((k, w) ∷ m) key = ground (arith, length-remove m key)

  pub length-insert :
      (m : List (K × V)) (key : K) (v : V)
      → length (insert m key v) ≡ (if has_key m key then length m else length m + 1)
  unfolding insert
  length-insert [] key v = omega arith
  length-insert ((k, w) ∷ m) key v = ground (arith, length-insert m key v)

  pub find-has_key :
      (m : List (K × V)) (key : K) (v : V) → find m key ≡ some v → has_key m key ≡ true
  unfolding find
  find-has_key [] key v h = cc
  find-has_key ((k, w) ∷ m) key v h = ground (arith, find-has_key m key v)
