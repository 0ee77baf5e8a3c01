-- ===== src/Ingress/Datagram/Hex.antt =====
-- Identifiers written in hexadecimal digits and read back.
use rove.Base.{ℕ, ◌+◌, ◌*◌, ◌/◌, ◌%◌, ◌<◌}
use rove.Base.{◌≡◌, refl, true, [], ◌∷◌, arith}
use rove.Base.{◌==◌, ==_iff}
use rove.Base.{length, all, All}
use rove.Base.Bytes.{IsByte}
use rove.Base.Eq.{nat_eq, list_eq}
use rove.Base.Result.{ok}
use rove.Base.Bits.{bit_or-nibbles}
use rove.Ingress.Datagram.{
  Id128, parse_hex, hex_pairs, hex_nibble, hex_digit, is_ascii_hexdigit, display_id,
}

hex_nibble-hex_digit : (v : ℕ) → v < 16 → hex_nibble (hex_digit v) ≡ v
hex_nibble-hex_digit v h = ground arith

hex_digit-is_ascii_hexdigit : (v : ℕ) → v < 16 → is_ascii_hexdigit (hex_digit v) ≡ true
hex_digit-is_ascii_hexdigit v h = ground arith

hex_pairs-display_id : (id : Id128) → All IsByte id → hex_pairs (display_id id) ≡ id
unfolding display_id
hex_pairs-display_id [] h = refl
hex_pairs-display_id (b ∷ bs) (h, hs) =
    let parts : b / 16 * 16 + b % 16 ≡ b = omega arith in
    rw
      (
        hex_nibble-hex_digit (b / 16) (omega arith),
        hex_nibble-hex_digit (b % 16) (omega arith),
        bit_or-nibbles (b / 16) (b % 16) (omega arith) (omega arith),
        parts,
        hex_pairs-display_id bs hs,
      )
      refl

all-display_id : (id : Id128) → All IsByte id → all is_ascii_hexdigit (display_id id) ≡ true
unfolding display_id
all-display_id [] h = refl
all-display_id (b ∷ bs) (h, hs) =
    rw
      (
        hex_digit-is_ascii_hexdigit (b / 16) (omega arith),
        hex_digit-is_ascii_hexdigit (b % 16) (omega arith),
      )
      (all-display_id bs hs)

length-display_id : (id : Id128) → length (display_id id) ≡ length id * 2
unfolding display_id
length-display_id [] = omega arith
length-display_id (b ∷ bs) = omega (arith, length-display_id bs)

-- An identifier of 16 bytes is read back from its hexadecimal form.
pub parse_hex-display_id :
    (id : Id128) → length id ≡ 16 → All IsByte id → parse_hex (display_id id) ≡ ok id
unfolding parse_hex
parse_hex-display_id id size h =
    let sized : (length (display_id id) == 32) ≡ true =
      (==_iff (length (display_id id)) 32).1 (omega (arith, length-display_id id)) in
    rw (sized, all-display_id id h, hex_pairs-display_id id h) refl
