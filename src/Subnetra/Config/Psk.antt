-- ===== src/Subnetra/Config/Psk.antt =====
-- Keys written as hexadecimal digits.
use rove.Base.{ℕ, ◌+◌, ◌-◌, ◌*◌, ◌/◌, ◌%◌, ◌<◌}
use rove.Base.{◌≡◌, refl, ap, true, false, not, ◌||◌, some, List, [], ◌∷◌, arith}
use rove.Base.{ltb, ◌==◌, if◌then◌else◌, ==_iff}
use rove.Base.{length, All}
use rove.Base.Bytes.{IsByte}
use rove.Base.Eq.{nat_eq, list_eq}
use rove.Base.Text.{Text}
use rove.Base.Result.{ok}
use rove.Base.Text.Trim.{IsVisible, trim-visible}
use rove.Subnetra.Config.{
  parse_psk, psk_bytes, from_str_radix, hex_value, is_continuation, starts_inside,
}

abbrev pub hex_digit : ℕ → ℕ
hex_digit v = if ltb v 10 then b'0' + v else b'a' + (v - 10)

-- Two lower-case digits for each byte.
unfoldable pub to_hex : List ℕ → Text
to_hex [] = []
to_hex (b ∷ bs) = hex_digit (b / 16) ∷ hex_digit (b % 16) ∷ to_hex bs

hex_value-hex_digit : (v : ℕ) → v < 16 → hex_value (hex_digit v) ≡ some v
hex_value-hex_digit v h = ground arith

hex_digit-IsVisible : (v : ℕ) → v < 16 → IsVisible (hex_digit v)
hex_digit-IsVisible v h = (ground arith, ground arith)

to_hex-IsVisible : (key : List ℕ) → All IsByte key → All IsVisible (to_hex key)
unfolding to_hex
to_hex-IsVisible [] h = tt
to_hex-IsVisible (b ∷ bs) (h, hs) = (
  hex_digit-IsVisible (b / 16) (omega arith),
  (hex_digit-IsVisible (b % 16) (omega arith), to_hex-IsVisible bs hs),
)

length-to_hex : (key : List ℕ) → length (to_hex key) ≡ length key * 2
unfolding to_hex
length-to_hex [] = omega arith
length-to_hex (b ∷ bs) = omega (arith, length-to_hex bs)

from_str_radix-hex_digit :
    (b : ℕ) → IsByte b → from_str_radix (hex_digit (b / 16)) (hex_digit (b % 16)) ≡ some b
from_str_radix-hex_digit b h =
    let unsigned : (hex_digit (b / 16) == b'+') ≡ false = ground arith in
    let parts : b / 16 * 16 + b % 16 ≡ b = omega arith in
    rw
      (
        unsigned,
        hex_value-hex_digit (b / 16) (omega arith),
        hex_value-hex_digit (b % 16) (omega arith),
      )
      (ap some parts)

whole :
    (a : ℕ) (s : Text)
    → IsVisible a
    → All IsVisible s
    → not (is_continuation a || starts_inside s) ≡ true
whole a [] (low, high) h = ground arith
whole a (b ∷ s) (low, high) ((low', high'), h) = ground arith

psk_bytes-to_hex : (key : List ℕ) → All IsByte key → psk_bytes (to_hex key) ≡ ok key
unfolding psk_bytes to_hex
psk_bytes-to_hex [] h = refl
psk_bytes-to_hex (b ∷ bs) (h, hs) =
    rw
      (
        whole (hex_digit (b / 16)) (to_hex bs) (hex_digit-IsVisible (b / 16) (omega arith))
            (to_hex-IsVisible bs hs),
        from_str_radix-hex_digit b h,
        psk_bytes-to_hex bs hs,
      )
      refl

-- A key of 32 bytes is read from its 64 lower-case hexadecimal digits.
pub parse_psk-to_hex :
    (key : List ℕ) → length key ≡ 32 → All IsByte key → parse_psk (to_hex key) ≡ ok key
unfolding parse_psk
parse_psk-to_hex key size h =
    let sized : (length (to_hex key) == 64) ≡ true =
      (==_iff (length (to_hex key)) 64).1 (omega (arith, length-to_hex key)) in
    rw (trim-visible (to_hex key) (to_hex-IsVisible key h), sized) (psk_bytes-to_hex key h)
