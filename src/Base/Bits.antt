-- ===== src/Base/Bits.antt =====
-- Bits of a word: what `|`, `&` and `<<` on a u64 do to a single bit, and that xor with a pad
-- undoes itself.
use Prim.Native.Nat.{
  ℕ, zero, suc, ◌+◌, ◌-◌, ◌*◌, ◌/◌, ◌%◌, ◌^◌, ◌≤◌, ◌<◌, min, max, bit_and, bit_or, bit_xor, digits,
}
use Prim.Native.Nat.{bit_and-bitwise, bit_or-bitwise, bit_xor-bitwise, differ}
use mathlib.Core.Path.{◌≡◌, refl, sym, ap, ◌∙◌}
use mathlib.Core.Logic.{inl, inr}
use mathlib.Core.Bool.{Bool, true, ◌&&◌}
use native.Mathlib.Omega.{arith}
use native.Mathlib.Nat.{pow-suc, pow-zero, one-le-pow, le_refl, zero-add, suc-add, mul-one}
use native.Mathlib.Nat.{div-add-mod, mod-lt, mod-eq_of_lt, mul-add-mod_self_left}
use rove.Base.Tests.{◌==◌, ==_iff, ltb, ltb→lt, if◌then◌else◌, Bool-cases}

-- Bit `i` of `w`, as 0 or 1.
abbrev pub bit : ℕ → ℕ → ℕ
bit w zero = w % 2
bit w (suc i) = bit (w / 2) i

-- `w << s` on a u64, for `s < 64`.
abbrev pub shl64 : ℕ → ℕ → ℕ
shl64 w s = w * 2 ^ s % 2 ^ 64

module _ (z : ℕ → ℕ) (f : ℕ → ℕ → ℕ) where
  enough_digits :
      (fuel other x y : ℕ) → x ≤ fuel → x ≤ other → digits z f fuel x y ≡ digits z f other x y
  enough_digits (suc fuel) (suc other) (suc x) y hf ho =
      omega (
        arith,
        enough_digits fuel other (suc x / 2) (y / 2) (omega (arith, hf)) (omega (arith, ho)),
      )
  enough_digits (suc fuel) (suc other) zero y hf ho = refl
  enough_digits (suc fuel) zero (suc x) y hf ho = absurd (omega (arith, ho))
  enough_digits zero (suc other) (suc x) y hf ho = absurd (omega (arith, hf))
  enough_digits (suc fuel) zero zero y hf ho = refl
  enough_digits zero (suc other) zero y hf ho = refl
  enough_digits zero zero x y hf ho = refl

pub bit_or_low : (a b : ℕ) → bit_or a b ≡ bit_or (a / 2) (b / 2) * 2 + max (a % 2) (b % 2)
bit_or_low zero b = simp bit_or-bitwise (omega arith)
bit_or_low (suc a) b = simp bit_or-bitwise (
    omega (
      arith,
      enough_digits (λ y. y) max a (suc a / 2) (suc a / 2) (b / 2) (omega arith) (le_refl _),
    ))

pub bit_and_low : (a b : ℕ) → bit_and a b ≡ bit_and (a / 2) (b / 2) * 2 + min (a % 2) (b % 2)
bit_and_low zero b = simp bit_and-bitwise (omega arith)
bit_and_low (suc a) b = simp bit_and-bitwise (
    omega (
      arith,
      enough_digits (λ y. 0) min a (suc a / 2) (suc a / 2) (b / 2) (omega arith) (le_refl _),
    ))

pub bit-le-one : (i w : ℕ) → bit w i ≤ 1
bit-le-one zero w = omega arith
bit-le-one (suc i) w = bit-le-one i (w / 2)

pub bit-zero : (i : ℕ) → bit 0 i ≡ 0
bit-zero zero = refl
bit-zero (suc i) = bit-zero i

-- Each bit of `a | b` and of `a & b` is that of `a` and `b` joined.
pub bit-bit_or : (i a b : ℕ) → bit (bit_or a b) i ≡ max (bit a i) (bit b i)
bit-bit_or zero a b = omega (arith, bit_or_low a b)
bit-bit_or (suc i) a b =
    let half : bit_or a b / 2 ≡ bit_or (a / 2) (b / 2) = omega (arith, bit_or_low a b) in
    rw half (bit-bit_or i (a / 2) (b / 2))

-- Bit `i` of `2 ^ d`.
half_pow : (d : ℕ) → 2 ^ suc d / 2 ≡ 2 ^ d
half_pow d = omega (arith, pow-suc 2 d)

pub bit-pow : (i d : ℕ) → bit (2 ^ d) i ≡ (if i == d then 1 else 0)
bit-pow zero zero = refl
bit-pow zero (suc d) = ground (arith, pow-suc 2 d)
bit-pow (suc i) zero = ground (arith, bit-zero i)
bit-pow (suc i) (suc d) = rw half_pow (ground (arith, bit-pow i d))

-- `w & (1 << d)` is not 0 exactly if bit `d` is set.
and_zero : (d a : ℕ) → a ≤ d → bit_and a 0 ≡ 0
and_zero zero zero h = refl
and_zero zero (suc a) h = absurd (omega arith)
and_zero (suc d) zero h = refl
and_zero (suc d) (suc a) h =
    omega (arith, bit_and_low (suc a) 0, and_zero d (suc a / 2) (omega arith))

pub bit_and-pow : (d w : ℕ) → bit_and w (2 ^ d) ≡ bit w d * 2 ^ d
bit_and-pow zero w = omega (arith, bit_and_low w 1, and_zero (w / 2) (w / 2) (le_refl _))
bit_and-pow (suc d) w =
    let low : 2 ^ suc d % 2 ≡ 0 = omega (arith, pow-suc 2 d) in
    let rest : bit_and (w / 2) (2 ^ suc d / 2) ≡ bit (w / 2) d * 2 ^ d =
      rw half_pow (bit_and-pow d (w / 2)) in
    omega (arith, bit_and_low w (2 ^ suc d), low, rest, scaled (bit (w / 2) d) d)
  where
    scaled : (x k : ℕ) → x * 2 ^ suc k ≡ x * 2 ^ k * 2
    scaled x k = rw (pow-suc 2 k) (omega arith)

-- Shifting by `s` moves bit `i - s` to bit `i`.
bit-mul-pow_low : (s i w : ℕ) → i < s → bit (w * 2 ^ s) i ≡ 0
bit-mul-pow_low zero i w h = elim h [ ]
bit-mul-pow_low (suc s) zero w h = omega (arith, doubled)
  where
    doubled : w * 2 ^ suc s ≡ w * 2 ^ s * 2
    doubled = rw (pow-suc 2 s) (omega arith)
bit-mul-pow_low (suc s) (suc i) w h = rw halved (bit-mul-pow_low s i w (omega arith))
  where
    halved : w * 2 ^ suc s / 2 ≡ w * 2 ^ s
    halved = rw (pow-suc 2 s) (omega arith)

bit-mul-pow : (s i w : ℕ) → bit (w * 2 ^ s) (s + i) ≡ bit w i
bit-mul-pow zero i w = simp (zero-add, pow-zero, mul-one) refl
bit-mul-pow (suc s) i w =
    ap (bit (w * 2 ^ suc s)) (suc-add s i) ∙ ap (λ v. bit v (s + i)) halved ∙ bit-mul-pow s i w
  where
    halved : w * 2 ^ suc s / 2 ≡ w * 2 ^ s
    halved = rw (pow-suc 2 s) (omega arith)

-- `w % (2 m)` halved is `w / 2 % m`, and it keeps the parity of `w`.
mod-double : (w m : ℕ) → 0 < m → w % (m * 2) / 2 ≡ w / 2 % m
mod-double w m h =
    sym (ap (λ t. t % m) split ∙ mul-add-mod_self_left m q (r / 2) ∙ mod-eq_of_lt small)
  where
    q : ℕ
    q = w / (m * 2)

    r : ℕ
    r = w % (m * 2)

    halves : (a r w : ℕ) → w ≡ a * 2 + r → w / 2 ≡ a + r / 2
    halves a r w e = omega arith

    split : w / 2 ≡ m * q + r / 2
    split = halves (m * q) r w (omega (arith, div-add-mod w (m * 2)))

    small : r / 2 < m
    small = omega (arith, mod-lt w {m = m * 2} (omega arith))

mod-double_parity : (w m : ℕ) → w % (m * 2) % 2 ≡ w % 2
mod-double_parity w m =
    parity (m * (w / (m * 2))) (w % (m * 2)) w (omega (arith, div-add-mod w (m * 2)))
  where
    parity : (a r w : ℕ) → w ≡ a * 2 + r → r % 2 ≡ w % 2
    parity a r w e = omega arith

bit-mod-pow : (k i w : ℕ) → i < k → bit (w % 2 ^ k) i ≡ bit w i
bit-mod-pow zero i w h = elim h [ ]
bit-mod-pow (suc k) zero w h = rw (pow-suc 2 k) (mod-double_parity w (2 ^ k))
bit-mod-pow (suc k) (suc i) w h =
    rw (pow-suc 2 k, mod-double w (2 ^ k) (one-le-pow k 2 (omega arith)))
      (bit-mod-pow k i (w / 2) (omega arith))

-- Bit `i` of `w << s` on a u64.
pub bit-shl64 : (s i w : ℕ) → i < 64 → bit (shl64 w s) i ≡ (if ltb i s then 0 else bit w (i - s))
bit-shl64 s i w h = elim (Bool-cases (ltb i s)) [
  | inl low ↦ rw low (bit-mod-pow 64 i (w * 2 ^ s) h ∙ bit-mul-pow_low s i w (ltb→lt i s low))
  | inr high ↦ rw high (
      bit-mod-pow 64 i (w * 2 ^ s) h
      ∙ ap (bit (w * 2 ^ s)) {x = i} {y = s + (i - s)} (ground arith)
      ∙ bit-mul-pow s (i - s) w)
]

-- Xor with one pad twice gives back the byte: every pair of bytes, by evaluation.
pub holds_under : ℕ → (ℕ → Bool) → Bool
holds_under zero test = true
holds_under (suc bound) test = test bound && holds_under bound test

pub holds_under-at :
    (test : ℕ → Bool) (bound i : ℕ) → i < bound → holds_under bound test ≡ true → test i ≡ true
unfolding holds_under
holds_under-at test zero i below all' = absurd (omega (arith, below))
holds_under-at test (suc bound) i below all' = ground (arith, below, holds_under-at test bound i)

xor_table : holds_under 256 (λ x. holds_under 256 (λ p. bit_xor (bit_xor x p) p == x)) ≡ true
unfolding holds_under
xor_table = refl

pub xor_twice : (x p : ℕ) → x < 256 → p < 256 → bit_xor (bit_xor x p) p ≡ x
xor_twice x p hx hp = (==_iff _ x).0 (
    holds_under-at (λ p. bit_xor (bit_xor x p) p == x) 256 p hp
      (holds_under-at (λ x. holds_under 256 (λ p. bit_xor (bit_xor x p) p == x)) 256 x hx
        xor_table))

nibble_table : holds_under 16 (λ x. holds_under 16 (λ y. bit_or (x * 16) y == x * 16 + y)) ≡ true
unfolding holds_under
nibble_table = refl

-- A nibble in front of another.
pub bit_or-nibbles : (x y : ℕ) → x < 16 → y < 16 → bit_or (x * 16) y ≡ x * 16 + y
bit_or-nibbles x y hx hy = (==_iff (bit_or (x * 16) y) (x * 16 + y)).0 (
    holds_under-at (λ b. bit_or (x * 16) b == x * 16 + b) 16 y hy
      (holds_under-at (λ a. holds_under 16 (λ b. bit_or (a * 16) b == a * 16 + b)) 16 x hx
        nibble_table))

differ_abs : (x y : ℕ) → differ x y ≡ max x y - min x y
differ_abs zero y = omega arith
differ_abs (suc x) zero = omega arith
differ_abs (suc x) (suc y) = omega (arith, differ_abs x y)

pub bit_xor_low : (a b : ℕ) → bit_xor a b ≡ bit_xor (a / 2) (b / 2) * 2 + differ (a % 2) (b % 2)
bit_xor_low zero b = simp bit_xor-bitwise (omega arith)
bit_xor_low (suc a) b = simp bit_xor-bitwise (
    omega (
      arith,
      enough_digits (λ y. y) differ a (suc a / 2) (suc a / 2) (b / 2) (omega arith) (le_refl _),
    ))

bit_xor_zero_below : (fuel a b : ℕ) → a ≤ fuel → b ≤ fuel → bit_xor a b ≡ 0 → a ≡ b
bit_xor_zero_below zero a b ha hb h = omega arith
bit_xor_zero_below (suc fuel) a b ha hb h =
    let low = bit_xor_low a b in
    let parity = differ_abs (a % 2) (b % 2) in
    let halves : bit_xor (a / 2) (b / 2) ≡ 0 = omega arith in
    let high = bit_xor_zero_below fuel (a / 2) (b / 2) (omega arith) (omega arith) halves in
    omega arith

-- Numbers whose exclusive or is zero are equal.
pub bit_xor_zero : (a b : ℕ) → bit_xor a b ≡ 0 → a ≡ b
bit_xor_zero a b = bit_xor_zero_below (max a b) a b (omega arith) (omega arith)

bit_xor_self_below : (fuel a : ℕ) → a ≤ fuel → bit_xor a a ≡ 0
bit_xor_self_below zero a h = let none_left : a ≡ 0 = omega arith in rw none_left refl
bit_xor_self_below (suc fuel) a h = omega (
  arith,
  bit_xor_low a a,
  differ_abs (a % 2) (a % 2),
  bit_xor_self_below fuel (a / 2) (omega arith),
)

pub bit_xor_self : (a : ℕ) → bit_xor a a ≡ 0
bit_xor_self a = bit_xor_self_below a a (le_refl a)

bit_or_zero_below : (fuel a b : ℕ) → a ≤ fuel → b ≤ fuel → bit_or a b ≡ 0 → (a ≡ 0) × (b ≡ 0)
bit_or_zero_below zero a b ha hb h = (omega arith, omega arith)
bit_or_zero_below (suc fuel) a b ha hb h =
    let low = bit_or_low a b in
    let halves : bit_or (a / 2) (b / 2) ≡ 0 = omega arith in
    let (high, high') = bit_or_zero_below fuel (a / 2) (b / 2) (omega arith) (omega arith) halves in
    (omega arith, omega arith)

pub bit_or_zero : (a b : ℕ) → bit_or a b ≡ 0 → (a ≡ 0) × (b ≡ 0)
bit_or_zero a b = bit_or_zero_below (max a b) a b (omega arith) (omega arith)
