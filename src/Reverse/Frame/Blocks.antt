-- ===== src/Reverse/Frame/Blocks.antt =====
-- The written requests as blocks of lines, and header lines read back.
use rove.Base.{ℕ, suc}
use rove.Base.{◌≡◌, refl, ap, ◌≢◌, true, Option, none, some, List, [], ◌∷◌, ◌++◌, arith}
use rove.Base.{All-append, length, All}
use rove.Base.Eq.{nat_eq, list_eq}
use rove.Base.Text.{Text, trim}
use mathlib.Core.List.{append_assoc, reverse}
use rove.Base.Decimal.{IsDigit}
use rove.Base.Text.{strip_space, strip_while, strip_space_back}
use rove.Base.Text.Utf8.{Utf8, IsAscii}
use rove.Base.Text.Words.{Spaceless, strip_space-space}
use rove.Reverse.Lines.Block.{block, IsInner, IsLine}
use rove.Reverse.Frame.{line, optional_line}

pub line-block : (l : Text) (ls : List Text) → line l ++ block ls ≡ block (l ∷ ls)
unfolding block
line-block l ls = append_assoc l (10 ∷ []) (block ls)

-- The lines of a header that may be absent.
abbrev pub optional_lines : Text → Option Text → List Text
optional_lines name none = []
optional_lines name (some v) = (name ++ v) ∷ []

pub optional_line-block :
    (name : Text) (o : Option Text) (ls : List Text)
    → optional_line name o ++ block ls ≡ block (optional_lines name o ++ ls)
optional_line-block name none ls = refl
optional_line-block name (some v) ls = line-block (name ++ v) ls

IsInner-space : (c : ℕ) (s : Text) → strip_space (c ∷ s) ≡ none → IsInner c
unfolding strip_space
IsInner-space c [] h = (ground arith, ground arith)
IsInner-space c (d ∷ []) h = (ground arith, ground arith)
IsInner-space c (d ∷ e ∷ s) h = (ground arith, ground arith)

pub Spaceless-IsInner : (s : Text) → Spaceless s → All IsInner s
Spaceless-IsInner [] h = tt
Spaceless-IsInner (c ∷ s) (h, hs) = (IsInner-space c s h, Spaceless-IsInner s hs)

pub IsDigit-IsAscii : (s : Text) → All IsDigit s → All IsAscii s
IsDigit-IsAscii [] h = tt
IsDigit-IsAscii (c ∷ s) ((low, high), h) = (omega arith, IsDigit-IsAscii s h)

strip_while-space :
    (n : ℕ) (v : Text) → strip_while strip_space (suc n) (32 ∷ v) ≡ strip_while strip_space n v
unfolding strip_while
strip_while-space n v = rw (strip_space-space v, strip_while) refl

pub trim-space : (v : Text) → trim (32 ∷ v) ≡ trim v
unfolding trim
trim-space v =
    ap (λ front. reverse (strip_while strip_space_back (length front) (reverse front)))
      (strip_while-space (length v) v)

-- A header value that is sent as it stands: not empty, without line breaks or outer white space.
pub record IsValue (u : Utf8) (v : Text) : Type 0 where
  pub filled : v ≢ []
  pub inner : All IsInner v
  pub trimmed : trim v ≡ v
  pub encoded : u.valid v ≡ true

abbrev pub IsOptional : Utf8 → Option Text → Type 0
IsOptional u none = Unit
IsOptional u (some v) = IsValue u v

pub append-IsLine : (name v : Text) → IsLine name → All IsInner v → IsLine (name ++ v)
append-IsLine [] v (h, _) hv = absurd (h refl)
append-IsLine (c ∷ name) v (_, h) hv = (λ e. cc, All-append IsInner (c ∷ name) v h hv)

module _ (u : Utf8) where
  -- A line that a block may have.
  abbrev pub IsSent : Text → Type 0
  IsSent l = IsLine l × (u.valid l ≡ true)

  pub block-valid : (ls : List Text) → All IsSent ls → u.valid (block ls) ≡ true
  unfolding block
  block-valid [] h = u.valid-ascii (10 ∷ []) (omega arith, tt)
  block-valid (l ∷ ls) ((_, h), hs) = u.valid-append l (10 ∷ block ls) h (
      u.valid-append (10 ∷ []) (block ls) (u.valid-ascii (10 ∷ []) (omega arith, tt))
        (block-valid ls hs))

  pub All-IsSent-IsLine : (ls : List Text) → All IsSent ls → All IsLine ls
  All-IsSent-IsLine [] h = tt
  All-IsSent-IsLine (l ∷ ls) ((h, _), hs) = (h, All-IsSent-IsLine ls hs)

  pub append-IsSent :
      (name v : Text) → IsSent name → All IsInner v → u.valid v ≡ true → IsSent (name ++ v)
  append-IsSent name v (h, hv) inner encoded =
      (append-IsLine name v h inner, u.valid-append name v hv encoded)

  pub optional_lines-IsSent :
      (name : Text) (o : Option Text)
      → IsSent name
      → IsOptional u o
      → All IsSent (optional_lines name o)
  optional_lines-IsSent name none h ho = tt
  optional_lines-IsSent name (some v) h ho = (append-IsSent name v h ho.inner ho.encoded, tt)

-- A name of the source's constants.
abbrev pub IsPlain : ℕ → Type 0
IsPlain c = IsInner c × IsAscii c

pub IsPlain-IsSent : (u : Utf8) (c : ℕ) (s : Text) → All IsPlain (c ∷ s) → IsSent u (c ∷ s)
IsPlain-IsSent u c s h = ((λ e. cc, inner (c ∷ s) h), u.valid-ascii (c ∷ s) (plain (c ∷ s) h))
  where
    inner : (t : Text) → All IsPlain t → All IsInner t
    inner [] k = tt
    inner (d ∷ t) ((k, _), ks) = (k, inner t ks)

    plain : (t : Text) → All IsPlain t → All IsAscii t
    plain [] k = tt
    plain (d ∷ t) ((_, k), ks) = (k, plain t ks)
