-- ===== src/Base/Text.antt =====
-- Strings as their UTF-8 bytes, and what the source uses of `str`: trimming, ASCII case, splitting,
-- joining, prefixes and substrings.
pub mod Split
pub mod Utf8
pub mod Words
pub mod Trim
use Prim.Native.Nat.{ℕ, zero, suc, ◌+◌}
use mathlib.Core.Path.{◌≡◌, refl}
use mathlib.Core.Bool.{Bool, true, false, ◌&&◌, ◌||◌}
use mathlib.Core.Option.{Option, none, some}
use mathlib.Core.List.{List, [], ◌∷◌, ◌++◌, map, reverse}
use rove.Base.Tests.{◌==◌, leb, ltb, if◌then◌else◌}
use rove.Base.Lists.{length}
use rove.Base.Eq.{nat_eq, list_beq}

abbrev pub Text : Type 0
Text = List ℕ

unfoldable pub lower_byte : ℕ → ℕ
lower_byte b = if leb b'A' b && leb b b'Z' then b + 32 else b

unfoldable pub to_ascii_lowercase : Text → Text
unfolding lower_byte
to_ascii_lowercase = map lower_byte

-- U+0009 to U+000D and the space.
abbrev pub is_ascii_space : ℕ → Bool
is_ascii_space b = leb 9 b && leb b 13 || b == 32

-- U+0085 and U+00A0 in two bytes.
abbrev pub is_space2 : ℕ → ℕ → Bool
is_space2 a b = a == 0xc2 && (b == 0x85 || b == 0xa0)

-- U+1680, U+2000 to U+200A, U+2028, U+2029, U+202F, U+205F and U+3000 in three bytes.
abbrev pub is_space3 : ℕ → ℕ → ℕ → Bool
is_space3 a b c =
    a == 0xe1 && b == 0x9a && c == 0x80
    || a == 0xe2 && b == 0x80 && (leb 0x80 c && leb c 0x8a || c == 0xa8 || c == 0xa9 || c == 0xaf)
    || a == 0xe2 && b == 0x81 && c == 0x9f
    || a == 0xe3 && b == 0x80 && c == 0x80

-- One whitespace character off the front.
unfoldable pub strip_space : Text → Option Text
strip_space [] = none
strip_space (a ∷ []) = if is_ascii_space a then some [] else none
strip_space (a ∷ b ∷ []) =
    if is_ascii_space a then some (b ∷ []) else (if is_space2 a b then some [] else none)
strip_space (a ∷ b ∷ c ∷ s) =
    if is_ascii_space a
    then some (b ∷ c ∷ s)
    else (if is_space2 a b then some (c ∷ s) else (if is_space3 a b c then some s else none))

-- One whitespace character off the end of a text that is given with its last byte first.
unfoldable pub strip_space_back : Text → Option Text
strip_space_back [] = none
strip_space_back (a ∷ []) = if is_ascii_space a then some [] else none
strip_space_back (a ∷ b ∷ []) =
    if is_ascii_space a then some (b ∷ []) else (if is_space2 b a then some [] else none)
strip_space_back (a ∷ b ∷ c ∷ s) =
    if is_ascii_space a
    then some (b ∷ c ∷ s)
    else (if is_space2 b a then some (c ∷ s) else (if is_space3 c b a then some s else none))

-- A text of `n` bytes has at most `n` characters to strip.
unfoldable pub strip_while : (Text → Option Text) → ℕ → Text → Text
strip_while strip zero s = s
strip_while strip (suc n) s = elim (strip s) [ none ↦ s | some rest ↦ strip_while strip n rest ]

unfoldable pub trim : Text → Text
unfolding strip_space strip_space_back strip_while
trim s =
    let front = strip_while strip_space (length s) s in
    reverse (strip_while strip_space_back (length front) (reverse front))

unfoldable pub strip_byte : ℕ → Text → Text
strip_byte d [] = []
strip_byte d (c ∷ s) = let rest = strip_byte d s in if c == d then rest else c ∷ s

-- `trim_matches(d)` and `trim_end_matches(d)` of an ASCII character.
unfoldable pub trim_end_matches : ℕ → Text → Text
unfolding strip_byte
trim_end_matches d s = reverse (strip_byte d (reverse s))

unfoldable pub trim_matches : ℕ → Text → Text
unfolding trim_end_matches
trim_matches d s = trim_end_matches d (strip_byte d s)

unfoldable pub strip_prefix : Text → Text → Option Text
strip_prefix [] s = some s
strip_prefix (p ∷ ps) [] = none
strip_prefix (p ∷ ps) (c ∷ s) = let rest = strip_prefix ps s in if p == c then rest else none

unfoldable pub starts_with : Text → Text → Bool
starts_with [] s = true
starts_with (p ∷ ps) [] = false
starts_with (p ∷ ps) (c ∷ s) = p == c && starts_with ps s

-- `s.contains(needle)`
unfoldable pub contains_text : Text → Text → Bool
unfolding starts_with
contains_text needle [] = starts_with needle []
contains_text needle (c ∷ s) = starts_with needle (c ∷ s) || contains_text needle s

abbrev prepend : ℕ → List Text → List Text
prepend c [] = (c ∷ []) ∷ []
prepend c (w ∷ ws) = (c ∷ w) ∷ ws

-- `s.split(d)` of an ASCII character
unfoldable pub split_on : ℕ → Text → List Text
split_on d [] = [] ∷ []
split_on d (c ∷ s) = let rest = split_on d s in if c == d then [] ∷ rest else prepend c rest

-- `s.split_once(d)`
unfoldable pub split_once : ℕ → Text → Option (Text × Text)
split_once d [] = none
split_once d (c ∷ s) =
    let rest = split_once d s in
    if c == d
    then some ([], s)
    else elim rest [ none ↦ none | some (front, back) ↦ some (c ∷ front, back) ]

unfoldable pub join_with : ℕ → List Text → Text
join_with d [] = []
join_with d (w ∷ []) = w
join_with d (w ∷ v ∷ ws) = w ++ d ∷ join_with d (v ∷ ws)

abbrev pub is_empty {ℓ} : {A : Type ℓ} → List A → Bool
is_empty [] = true
is_empty (_ ∷ _) = false
