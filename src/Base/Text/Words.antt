-- ===== src/Base/Text/Words.antt =====
-- `split_whitespace`, and words without white space.
use Prim.Native.Nat.{ℕ, zero, suc, ◌+◌}
use mathlib.Core.Path.{◌≡◌, refl, ap, ◌∙◌}
use mathlib.Core.Logic.{◌≢◌}
use mathlib.Core.Option.{none, some}
use mathlib.Core.List.{List, [], ◌∷◌, ◌++◌, append_assoc, append-nil}
use native.Mathlib.Omega.{arith}
use rove.Base.Tests.{if◌then◌else◌}
use rove.Base.Lists.{All, length, length-append}
use rove.Base.Decimal.{IsDigit}
use rove.Base.Text.{Text, strip_space, is_empty}

abbrev flush : Text → List Text → List Text
flush word ws = if is_empty word then ws else word ∷ ws

-- A text of `n` bytes has at most `n` characters.
unfoldable pub words_from : ℕ → Text → Text → List Text
words_from zero word s = flush word []
words_from (suc n) word [] = flush word []
words_from (suc n) word (c ∷ s) = elim (strip_space (c ∷ s)) [
  | none ↦ words_from n (word ++ c ∷ []) s
  | some rest ↦ flush word (words_from n [] rest)
]

unfoldable pub split_whitespace : Text → List Text
unfolding words_from
split_whitespace s = words_from (length s) [] s

-- No character of the text is white space.
abbrev pub Spaceless : Text → Type 0
Spaceless [] = Unit
Spaceless (c ∷ s) = (strip_space (c ∷ s) ≡ none) × Spaceless s

pub All-IsDigit-Spaceless : (s : Text) → All IsDigit s → Spaceless s
unfolding strip_space
All-IsDigit-Spaceless [] h = tt
All-IsDigit-Spaceless (c ∷ []) ((low, high), h) = (ground arith, tt)
All-IsDigit-Spaceless (c ∷ d ∷ []) ((low, high), h) =
    (ground arith, All-IsDigit-Spaceless (d ∷ []) h)
All-IsDigit-Spaceless (c ∷ d ∷ e ∷ s) ((low, high), h) =
    (ground arith, All-IsDigit-Spaceless (d ∷ e ∷ s) h)

strip_space-front :
    (c : ℕ) (s t : Text) → strip_space (c ∷ s) ≡ none → strip_space (c ∷ (s ++ 32 ∷ t)) ≡ none
unfolding strip_space
strip_space-front c [] [] h = ground arith
strip_space-front c [] (x ∷ t) h = ground arith
strip_space-front c (d ∷ []) t h = ground arith
strip_space-front c (d ∷ e ∷ s) t h = ground arith

append_one : (w : Text) (c : ℕ) (s : Text) → (w ++ c ∷ []) ++ s ≡ w ++ c ∷ s
append_one w c s = append_assoc w (c ∷ []) s

pub strip_space-space : (t : Text) → strip_space (32 ∷ t) ≡ some t
unfolding strip_space
strip_space-space [] = refl
strip_space-space (a ∷ []) = refl
strip_space-space (a ∷ b ∷ t) = refl

words_from-space :
    (h t word : Text) (n k : ℕ)
    → Spaceless h
    → n ≡ length h + (1 + k)
    → words_from n word (h ++ 32 ∷ t) ≡ flush (word ++ h) (words_from k [] t)
unfolding words_from
words_from-space h t word zero k spaceless size = absurd (omega arith)
words_from-space [] t word (suc n) k spaceless size =
    rw (strip_space-space t, append-nil word, words_from)
      (ap (λ m. flush word (words_from m [] t)) (omega arith))
words_from-space (c ∷ h) t word (suc n) k (none_here, spaceless) size =
    rw (strip_space-front c h t none_here, words_from)
      (words_from-space h t (word ++ c ∷ []) n k spaceless (omega arith)
        ∙ ap (λ w. flush w (words_from k [] t)) (append_one word c h))

words_from-end :
    (h word : Text) (n : ℕ)
    → Spaceless h
    → n ≡ length h
    → words_from n word h ≡ flush (word ++ h) []
unfolding words_from
words_from-end [] word zero spaceless size = rw (append-nil word) refl
words_from-end [] word (suc n) spaceless size = rw (append-nil word) refl
words_from-end (c ∷ h) word zero spaceless size = absurd (omega arith)
words_from-end (c ∷ h) word (suc n) (none_here, spaceless) size =
    rw (none_here, words_from)
      (words_from-end h (word ++ c ∷ []) n spaceless (omega arith)
        ∙ ap (λ w. flush w []) (append_one word c h))

flush-NonEmpty : (w : Text) (ws : List Text) → w ≢ [] → flush w ws ≡ w ∷ ws
flush-NonEmpty [] ws h = absurd (h refl)
flush-NonEmpty (c ∷ w) ws h = refl

-- Two words with a space between are split there.
pub split_whitespace-two :
    (a b : Text)
    → Spaceless a
    → Spaceless b
    → a ≢ []
    → b ≢ []
    → split_whitespace (a ++ 32 ∷ b) ≡ a ∷ b ∷ []
unfolding split_whitespace
split_whitespace-two a b sa sb ha hb =
    words_from-space a b [] (length (a ++ 32 ∷ b)) (length b) sa
      (omega (arith, length-append a (32 ∷ b)))
    ∙ ap (flush a) (words_from-end b [] (length b) sb refl ∙ flush-NonEmpty b [] hb)
    ∙ flush-NonEmpty a (b ∷ []) ha
