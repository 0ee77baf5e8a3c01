-- ===== src/Base/Text/Trim.antt =====
-- Texts that `trim` leaves as they are.
use Prim.Native.Nat.{ℕ, zero, suc, ◌≤◌, ◌<◌}
use mathlib.Core.Path.{◌≡◌, refl}
use mathlib.Core.Option.{Option, none}
use mathlib.Core.List.{[], ◌∷◌, reverse, reverse_aux, reverse-reverse}
use native.Mathlib.Omega.{arith}
use rove.Base.Lists.{All, length}
use rove.Base.Text.{Text, strip_space, strip_space_back, strip_while, trim}

-- A printing character of ASCII.
abbrev pub IsVisible : ℕ → Type 0
IsVisible c = (33 ≤ c) × (c < 127)

strip_space-visible : (s : Text) → All IsVisible s → strip_space s ≡ none
unfolding strip_space
strip_space-visible [] h = refl
strip_space-visible (a ∷ []) ((low, high), h) = ground arith
strip_space-visible (a ∷ b ∷ []) ((low, high), h) = ground arith
strip_space-visible (a ∷ b ∷ c ∷ s) ((low, high), h) = ground arith

strip_space_back-visible : (s : Text) → All IsVisible s → strip_space_back s ≡ none
unfolding strip_space_back
strip_space_back-visible [] h = refl
strip_space_back-visible (a ∷ []) ((low, high), h) = ground arith
strip_space_back-visible (a ∷ b ∷ []) ((low, high), ((low', high'), h)) = ground arith
strip_space_back-visible (a ∷ b ∷ c ∷ s) ((low, high), h) = ground arith

strip_while-none :
    (strip : Text → Option Text) (n : ℕ) (s : Text) → strip s ≡ none → strip_while strip n s ≡ s
unfolding strip_while
strip_while-none strip zero s h = refl
strip_while-none strip (suc n) s h = rw (h, strip_while) refl

All-reverse_aux : (s t : Text) → All IsVisible s → All IsVisible t → All IsVisible (reverse_aux s t)
All-reverse_aux [] t h k = k
All-reverse_aux (c ∷ s) t (h, hs) k = All-reverse_aux s (c ∷ t) hs (h, k)

pub trim-visible : (s : Text) → All IsVisible s → trim s ≡ s
unfolding trim
trim-visible s h =
    rw
      (
        strip_while-none strip_space (length s) s (strip_space-visible s h),
        strip_while-none strip_space_back (length s) (reverse s)
            (strip_space_back-visible (reverse s) (All-reverse_aux s [] h tt)),
      )
      (reverse-reverse s)
