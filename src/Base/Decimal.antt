-- ===== src/Base/Decimal.antt =====
-- Decimal numbers: `Display` and `FromStr` of the unsigned integers. A u64 has at most 20 digits.
use Prim.Native.Nat.{ℕ, zero, suc, ◌+◌, ◌-◌, ◌*◌, ◌/◌, ◌%◌, ◌^◌, ◌≤◌, ◌<◌}
use mathlib.Core.Path.{◌≡◌, refl, ◌∙◌, subst}
use mathlib.Core.Bool.{Bool, true, false, ◌&&◌}
use mathlib.Core.Logic.{inl, inr}
use mathlib.Core.Option.{Option, none, some}
use mathlib.Core.List.{[], ◌∷◌}
use native.Mathlib.Omega.{arith}
use native.Mathlib.Nat.{pow-suc}
use rove.Base.Tests.{◌==◌, leb, if◌then◌else◌, Bool-cases, ==_iff}
use rove.Base.Lists.{All}
use rove.Base.Text.{Text}

abbrev pub is_ascii_digit : ℕ → Bool
is_ascii_digit c = leb b'0' c && leb c b'9'

abbrev pub IsDigit : ℕ → Type 0
IsDigit c = (b'0' ≤ c) × (c ≤ b'9')

abbrev digit_of : ℕ → ℕ
digit_of n = b'0' + n % 10

-- The digits of `n` in front of those that are there.
unfoldable pub push_digits : ℕ → ℕ → Text → Text
push_digits zero n done = done
push_digits (suc fuel) n done = elim (n / 10 == 0) [
  | true ↦ digit_of n ∷ done
  | false ↦ push_digits fuel (n / 10) (digit_of n ∷ done)
]

-- `format!("{n}")`
unfoldable pub to_decimal : ℕ → Text
unfolding push_digits
to_decimal n = push_digits 20 n []

-- Overflow past `top` is an error, as is a character that is no digit.
unfoldable pub read_digits : ℕ → Text → ℕ → Option ℕ
read_digits top [] n = some n
read_digits top (c ∷ s) n =
    let next = n * 10 + (c - b'0') in
    let rest = read_digits top s next in if is_ascii_digit c && leb next top then rest else none

-- `s.parse()` of an unsigned type with the maximum `top`; one plus sign may lead.
unfoldable pub parse_unsigned : ℕ → Text → Option ℕ
unfolding read_digits
parse_unsigned top [] = none
parse_unsigned top (c ∷ []) = read_digits top (c ∷ []) 0
parse_unsigned top (c ∷ d ∷ s) =
    let signed = read_digits top (d ∷ s) 0 in
    let plain = read_digits top (c ∷ d ∷ s) 0 in if c == b'+' then signed else plain

pub push_digits-IsDigit :
    (fuel n : ℕ) (done : Text) → All IsDigit done → All IsDigit (push_digits fuel n done)
unfolding push_digits
push_digits-IsDigit zero n done h = h
push_digits-IsDigit (suc fuel) n done h =
    let digit : IsDigit (b'0' + n % 10) = (omega arith, omega arith) in
    elim (Bool-cases (n / 10 == 0)) [
      | inl e ↦ rw (e, push_digits) (digit, h)
      | inr e ↦
          rw (e, push_digits) (push_digits-IsDigit fuel (n / 10) (digit_of n ∷ done) (digit, h))
    ]

-- A decimal number consists of digits.
pub to_decimal-IsDigit : (n : ℕ) → All IsDigit (to_decimal n)
unfolding to_decimal
to_decimal-IsDigit n = push_digits-IsDigit 20 n [] tt

read_digits-digit :
    (top n : ℕ) (done : Text)
    → n ≤ top
    → read_digits top (digit_of n ∷ done) (n / 10) ≡ read_digits top done n
unfolding read_digits
read_digits-digit top n done h =
    let back : n / 10 * 10 + (b'0' + n % 10 - b'0') ≡ n = omega arith in rw back (ground arith)

read_digits-push_digits :
    (top fuel n : ℕ) (done : Text)
    → n < 10 ^ fuel
    → n ≤ top
    → read_digits top (push_digits fuel n done) 0 ≡ read_digits top done n
unfolding push_digits
read_digits-push_digits top zero n done few h =
    let none_left : n ≡ 0 = omega arith in rw none_left refl
read_digits-push_digits top (suc fuel) n done few h = elim (Bool-cases (n / 10 == 0)) [
  | inl e ↦
      let last : n / 10 ≡ 0 = (==_iff (n / 10) 0).0 e in
      let step = read_digits-digit top n done h in
      rw (e, push_digits)
        (subst (λ m. read_digits top (digit_of n ∷ done) m ≡ read_digits top done n) last step)
  | inr e ↦
      rw (e, push_digits)
        (read_digits-push_digits top fuel (n / 10) (digit_of n ∷ done)
            (omega (arith, pow-suc 10 fuel)) (omega arith)
          ∙ read_digits-digit top n done h)
]

push_digits-NonEmpty :
    (fuel n c : ℕ) (s : Text) → (d : ℕ) × (t : Text) × (push_digits fuel n (c ∷ s) ≡ d ∷ t)
unfolding push_digits
push_digits-NonEmpty zero n c s = (c, s, refl)
push_digits-NonEmpty (suc fuel) n c s =
    elim (n / 10 == 0)
      as (λ b.
        (d : ℕ) × (t : Text) × ((elim b [
          | true ↦ digit_of n ∷ c ∷ s
          | false ↦ push_digits fuel (n / 10) (digit_of n ∷ c ∷ s)
        ])
          ≡ d ∷ t)) [
            | true ↦ (digit_of n, c ∷ s, refl)
            | false ↦ push_digits-NonEmpty fuel (n / 10) (digit_of n) (c ∷ s)
          ]

pub to_decimal-cons : (n : ℕ) → (c : ℕ) × (s : Text) × (to_decimal n ≡ c ∷ s)
unfolding to_decimal push_digits
to_decimal-cons n =
    elim (n / 10 == 0)
      as (λ b.
        (d : ℕ) × (t : Text) × ((elim b [
          | true ↦ digit_of n ∷ []
          | false ↦ push_digits 19 (n / 10) (digit_of n ∷ [])
        ])
          ≡ d ∷ t)) [
            | true ↦ (digit_of n, [], refl)
            | false ↦ push_digits-NonEmpty 19 (n / 10) (digit_of n) []
          ]

unsigned :
    (top : ℕ) (s : Text) (c : ℕ) (rest : Text)
    → s ≡ c ∷ rest
    → All IsDigit s
    → parse_unsigned top s ≡ read_digits top s 0
unfolding parse_unsigned
unsigned top [] c rest e h = absurd (cc)
unsigned top (a ∷ []) c rest e h = refl
unsigned top (a ∷ b ∷ s) c rest e ((low, high), h) =
    let off : (a == b'+') ≡ false = ground arith in rw off refl

-- A number up to the type's maximum is read back from its decimal form.
pub parse_unsigned-to_decimal :
    (top n : ℕ) → n ≤ top → top < 10 ^ 20 → parse_unsigned top (to_decimal n) ≡ some n
unfolding to_decimal read_digits
parse_unsigned-to_decimal top n h small =
    let (c, rest, e) = to_decimal-cons n in
    unsigned top (push_digits 20 n []) c rest e (to_decimal-IsDigit n)
    ∙ read_digits-push_digits top 20 n [] (omega arith) h

read_digits-bounded :
    (top : ℕ) (s : Text) (n r : ℕ) → n ≤ top → read_digits top s n ≡ some r → r ≤ top
unfolding read_digits
read_digits-bounded top [] n r h e = ground arith
read_digits-bounded top (c ∷ s) n r h e =
    ground (arith, read_digits-bounded top s (n * 10 + (c - b'0')) r)

-- What is parsed fits the type.
pub parse_unsigned-bounded : (top : ℕ) (s : Text) (r : ℕ) → parse_unsigned top s ≡ some r → r ≤ top
unfolding parse_unsigned
parse_unsigned-bounded top [] r e = cc
parse_unsigned-bounded top (c ∷ []) r e = read_digits-bounded top (c ∷ []) 0 r (omega arith) e
parse_unsigned-bounded top (c ∷ d ∷ s) r e = ground (
  arith,
  read_digits-bounded top (d ∷ s) 0 r (omega arith),
  read_digits-bounded top (c ∷ d ∷ s) 0 r (omega arith),
)
