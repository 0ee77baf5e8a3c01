-- ===== src/Base/Text/Utf8.antt =====
-- UTF-8 validity and `String::from_utf8_lossy` of the standard library, as an interface.
use Prim.Native.Nat.{ℕ, ◌<◌}
use mathlib.Core.Path.{◌≡◌}
use mathlib.Core.Bool.{Bool, true}
use mathlib.Core.List.{◌++◌}
use rove.Base.Lists.{All}
use rove.Base.Text.{Text}

abbrev pub IsAscii : ℕ → Type 0
IsAscii b = b < 128

pub record Utf8 : Type 0 where
  pub valid : Text → Bool
  pub from_utf8_lossy : Text → Text
  pub from_utf8_lossy-valid : (s : Text) → valid s ≡ true → from_utf8_lossy s ≡ s
  pub valid-append : (s t : Text) → valid s ≡ true → valid t ≡ true → valid (s ++ t) ≡ true
  pub valid-ascii : (s : Text) → All IsAscii s → valid s ≡ true
