-- ===== src/Base/Bytes.antt =====
-- Bytes: fixed-width integers in both byte orders, slices, xor with a pad, ASCII literals.
use Prim.Native.Char.{code}
use Prim.Native.String.{String}
use Prim.Native.Nat.{ℕ, zero, suc, ◌+◌, ◌-◌, ◌*◌, ◌/◌, ◌%◌, ◌^◌, ◌<◌, bit_xor}
use mathlib.Core.Path.{◌≡◌, refl, ap}
use mathlib.Core.List.{List, [], ◌∷◌, ◌++◌}
use native.Mathlib.Omega.{arith}
use native.Mathlib.Nat.{pow-suc}
use rove.Base.Lists.{length, length-append, take, drop, All}
use rove.Base.Bits.{xor_twice}

-- The bytes of an ASCII literal.
abbrev pub ascii : String → List ℕ
ascii String.[] = []
ascii (String.◌∷◌ c s) = code c ∷ ascii s

abbrev pub IsByte : ℕ → Type 0
IsByte b = b < 256

-- `x.to_le_bytes()` and `x.to_be_bytes()` of an integer of `k` bytes.
unfoldable pub to_le_bytes : ℕ → ℕ → List ℕ
to_le_bytes zero x = []
to_le_bytes (suc k) x = x % 256 ∷ to_le_bytes k (x / 256)

unfoldable pub to_be_bytes : ℕ → ℕ → List ℕ
to_be_bytes zero x = []
to_be_bytes (suc k) x = to_be_bytes k (x / 256) ++ x % 256 ∷ []

unfoldable pub from_le_bytes : List ℕ → ℕ
from_le_bytes [] = 0
from_le_bytes (b ∷ bs) = b + 256 * from_le_bytes bs

unfoldable pub from_be_loop : ℕ → List ℕ → ℕ
from_be_loop acc [] = acc
from_be_loop acc (b ∷ bs) = from_be_loop (acc * 256 + b) bs

unfoldable pub from_be_bytes : List ℕ → ℕ
unfolding from_be_loop
from_be_bytes = from_be_loop 0

-- `&bytes[a..b]` of a slice that is long enough.
abbrev pub slice : ℕ → ℕ → List ℕ → List ℕ
slice a b bs = take (b - a) (drop a bs)

-- `bytes[i]` of a slice that is long enough.
abbrev pub byte_at : List ℕ → ℕ → ℕ
byte_at [] i = 0
byte_at (b ∷ bs) zero = b
byte_at (b ∷ bs) (suc i) = byte_at bs i

-- `bytes[i] ^= pad[i]` for each byte of the pad.
unfoldable pub xor_prefix : List ℕ → List ℕ → List ℕ
xor_prefix [] bs = bs
xor_prefix (p ∷ ps) [] = []
xor_prefix (p ∷ ps) (b ∷ bs) = bit_xor b p ∷ xor_prefix ps bs

-- `u16::from_be_bytes([bytes[i], bytes[i + 1]])`
unfoldable pub u16_at : List ℕ → ℕ → ℕ
unfolding from_be_bytes
u16_at bs i = from_be_bytes (byte_at bs i ∷ byte_at bs (i + 1) ∷ [])

pub length-to_le_bytes : (k x : ℕ) → length (to_le_bytes k x) ≡ k
unfolding to_le_bytes
length-to_le_bytes zero x = refl
length-to_le_bytes (suc k) x = ap suc (length-to_le_bytes k (x / 256))

pub length-to_be_bytes : (k x : ℕ) → length (to_be_bytes k x) ≡ k
unfolding to_be_bytes
length-to_be_bytes zero x = refl
length-to_be_bytes (suc k) x =
    omega (
      arith,
      length-append (to_be_bytes k (x / 256)) (x % 256 ∷ []),
      length-to_be_bytes k (x / 256),
    )

shrinks : (k x : ℕ) → x < 256 ^ suc k → x / 256 < 256 ^ k
shrinks k x h = omega (arith, pow-suc 256 k)

pub from_le_bytes-to_le_bytes : (k x : ℕ) → x < 256 ^ k → from_le_bytes (to_le_bytes k x) ≡ x
unfolding to_le_bytes from_le_bytes
from_le_bytes-to_le_bytes zero x h = omega arith
from_le_bytes-to_le_bytes (suc k) x h =
    omega (arith, from_le_bytes-to_le_bytes k (x / 256) (shrinks k x h))

from_be_loop-append :
    (bs : List ℕ) (acc b : ℕ) → from_be_loop acc (bs ++ b ∷ []) ≡ from_be_loop acc bs * 256 + b
unfolding from_be_loop
from_be_loop-append [] acc b = refl
from_be_loop-append (x ∷ bs) acc b = from_be_loop-append bs (acc * 256 + x) b

pub from_be_bytes-to_be_bytes : (k x : ℕ) → x < 256 ^ k → from_be_bytes (to_be_bytes k x) ≡ x
unfolding to_be_bytes from_be_bytes
from_be_bytes-to_be_bytes zero x h = omega arith
from_be_bytes-to_be_bytes (suc k) x h = omega (
  arith,
  from_be_loop-append (to_be_bytes k (x / 256)) 0 (x % 256),
  from_be_bytes-to_be_bytes k (x / 256) (shrinks k x h),
)

pub to_le_bytes-IsByte : (k x : ℕ) → All IsByte (to_le_bytes k x)
unfolding to_le_bytes
to_le_bytes-IsByte zero x = tt
to_le_bytes-IsByte (suc k) x = (omega arith, to_le_bytes-IsByte k (x / 256))

pub length-xor_prefix : (ps bs : List ℕ) → length (xor_prefix ps bs) ≡ length bs
unfolding xor_prefix
length-xor_prefix [] bs = refl
length-xor_prefix (p ∷ ps) [] = refl
length-xor_prefix (p ∷ ps) (b ∷ bs) = ap suc (length-xor_prefix ps bs)

-- The pad undoes itself, and does not reach behind its own length.
pub xor_prefix_twice :
    (ps bs : List ℕ) → All IsByte ps → All IsByte bs → xor_prefix ps (xor_prefix ps bs) ≡ bs
unfolding xor_prefix
xor_prefix_twice [] bs hp hb = refl
xor_prefix_twice (p ∷ ps) [] hp hb = refl
xor_prefix_twice (p ∷ ps) (b ∷ bs) (hp, hps) (hb, hbs) =
    rw (xor_twice b p hb hp, xor_prefix_twice ps bs hps hbs)

pub xor_prefix-append :
    (ps front back : List ℕ)
    → length ps ≡ length front
    → xor_prefix ps (front ++ back) ≡ xor_prefix ps front ++ back
unfolding xor_prefix
xor_prefix-append [] [] back h = refl
xor_prefix-append [] (b ∷ front) back h = absurd (omega arith)
xor_prefix-append (p ∷ ps) [] back h = absurd (omega arith)
xor_prefix-append (p ∷ ps) (b ∷ front) back h =
    ap (λ l. bit_xor b p ∷ l) (xor_prefix-append ps front back (omega arith))

byte_at-append :
    (front back : List ℕ) (i j : ℕ)
    → j ≡ length front + i
    → byte_at (front ++ back) j ≡ byte_at back i
byte_at-append [] back i j h = ap (byte_at back) (omega arith)
byte_at-append (b ∷ front) back i zero h = absurd (omega arith)
byte_at-append (b ∷ front) back i (suc j) h = byte_at-append front back i j (omega arith)

-- A big-endian u16 behind a front is read at the front's length.
pub u16_at-append :
    (front back : List ℕ) (i port : ℕ)
    → length front ≡ i
    → port < 2 ^ 16
    → u16_at (front ++ (to_be_bytes 2 port ++ back)) i ≡ port
unfolding u16_at to_be_bytes from_be_bytes
u16_at-append front back i port size h =
    let bytes = to_be_bytes 2 port ++ back in
    rw
      (
        byte_at-append front bytes 0 i (omega arith),
        byte_at-append front bytes 1 (i + 1) (omega arith),
      )
      (omega arith)
