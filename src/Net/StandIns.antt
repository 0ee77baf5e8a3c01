-- ===== src/Net/StandIns.antt =====
-- Stand-ins for the standard library's text functions, for concrete runs.
use mathlib.Core.Path.{subst}
use rove.Base.{ℕ, ◌-◌, ◌^◌, ◌<◌}
use rove.Base.{
  ◌≡◌, refl, inl, inr, Bool, true, false, ◌&&◌, Option, none, some, [], ◌∷◌, ◌++◌, arith,
}
use rove.Base.{ltb, ◌==◌, if◌then◌else◌, Bool-cases}
use rove.Base.{length, all, All}
use rove.Base.Bytes.{IsByte}
use rove.Base.Eq.{nat_eq, list_eq}
use rove.Base.Text.{Text}
use rove.Base.Decimal.{
  to_decimal, parse_unsigned, parse_unsigned-to_decimal, parse_unsigned-bounded,
}
use rove.Base.Text.Utf8.{Utf8, IsAscii}
use rove.Net.{IpAddr, ipv4, ipv6, AddrText, IsAddr}

pub all-append :
    (p : ℕ → Bool) (s t : Text) → all p s ≡ true → all p t ≡ true → all p (s ++ t) ≡ true
all-append p [] t h k = k
all-append p (c ∷ s) t h k = ground (arith, all-append p s t)

pub all-ascii : (s : Text) → All IsAscii s → all (λ c. ltb c 128) s ≡ true
all-ascii [] h = refl
all-ascii (c ∷ s) (h, hs) = ground (arith, all-ascii s hs)

-- Only ASCII is taken for valid.
abbrev pub ascii_only : Utf8
ascii_only = record {
  valid = all (λ c. ltb c 128);
  from_utf8_lossy = λ s. s;
  from_utf8_lossy-valid = λ s h. refl;
  valid-append = all-append (λ c. ltb c 128);
  valid-ascii = all-ascii;
}

-- An address is written with its version in front.
abbrev toy_string : IpAddr → Text
toy_string (ipv4 a) = b'4' ∷ to_decimal a
toy_string (ipv6 octets) = b'6' ∷ octets

abbrev toy_v4 : Option ℕ → Option IpAddr
toy_v4 none = none
toy_v4 (some a) = some (ipv4 a)

abbrev toy_v6 : Bool → Text → Option IpAddr
toy_v6 false s = none
toy_v6 true s = some (ipv6 s)

abbrev toy_parse : Text → Option IpAddr
toy_parse [] = none
toy_parse (c ∷ s) =
    if c == b'4'
    then toy_v4 (parse_unsigned (2 ^ 32 - 1) s)
    else toy_v6 (c == b'6' && (length s == 16 && all (λ b. ltb b 256) s)) s

all-IsByte : (s : Text) → all (λ b. ltb b 256) s ≡ true → All IsByte s
all-IsByte [] h = tt
all-IsByte (c ∷ s) h = (ground arith, all-IsByte s (ground arith))

IsByte-all : (s : Text) → All IsByte s → all (λ b. ltb b 256) s ≡ true
IsByte-all [] h = refl
IsByte-all (c ∷ s) (h, hs) = ground (arith, IsByte-all s hs)

toy_v4-IsAddr :
    (s : Text) (o : Option ℕ) (a : IpAddr)
    → parse_unsigned (2 ^ 32 - 1) s ≡ o
    → toy_v4 o ≡ some a
    → IsAddr a
toy_v4-IsAddr s none a e h = cc
toy_v4-IsAddr s (some n) a e h =
    let small : n < 2 ^ 32 = omega (arith, parse_unsigned-bounded (2 ^ 32 - 1) s n e) in
    let same : ipv4 n ≡ a = cc in subst IsAddr same small

toy_v6-IsAddr :
    (s : Text) (b : Bool) (a : IpAddr)
    → (b ≡ true → IsAddr (ipv6 s))
    → toy_v6 b s ≡ some a
    → IsAddr a
toy_v6-IsAddr s false a good h = cc
toy_v6-IsAddr s true a good h = let same : ipv6 s ≡ a = cc in subst IsAddr same (good refl)

pub toy_parse-IsAddr : (s : Text) (a : IpAddr) → toy_parse s ≡ some a → IsAddr a
toy_parse-IsAddr [] a h = cc
toy_parse-IsAddr (c ∷ s) a h = elim (Bool-cases (c == b'4')) [
  | inl v4 ↦ toy_v4-IsAddr s (parse_unsigned (2 ^ 32 - 1) s) a refl (rw v4 at h)
  | inr other ↦
      toy_v6-IsAddr s (c == b'6' && (length s == 16 && all (λ b. ltb b 256) s)) a
        (λ k. (ground arith, all-IsByte s (ground arith))) (rw other at h)
]

pub toy_parse-toy_string : (a : IpAddr) → IsAddr a → toy_parse (toy_string a) ≡ some a
toy_parse-toy_string (ipv4 a) h =
    rw (parse_unsigned-to_decimal (2 ^ 32 - 1) a (omega arith) (omega arith)) refl
toy_parse-toy_string (ipv6 octets) (size, bytes) = rw (size, IsByte-all octets bytes) refl

abbrev pub toy_addr : AddrText
toy_addr = record {
  parse_ip = toy_parse;
  ip_to_string = toy_string;
  parse_ip-IsAddr = toy_parse-IsAddr;
  parse_ip-ip_to_string = toy_parse-toy_string;
}
