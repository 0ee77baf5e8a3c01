-- ===== src/Reverse/Lines/Block.antt =====
-- Blocks of lines, written and read back.
use rove.Base.{ℕ, ◌+◌, ◌≤◌, ◌<◌}
use rove.Base.{◌≡◌, refl, sym, ap, ◌∙◌, ◌≢◌, true, false, ◌&&◌, List, [], ◌∷◌, ◌++◌, map, arith}
use rove.Base.{ltb, ◌==◌, le→ltb_false}
use rove.Base.{length, All, length-append}
use rove.Base.Eq.{nat_eq, list_eq}
use rove.Base.Text.{Text, split_on}
use rove.Base.Text.Split.{IsFree}
use rove.Base.Result.{ok}
use rove.Base.Text.Utf8.{Utf8}
use mathlib.Core.List.{append-nil, append_assoc}
use rove.Base.Text.Split.{split_on_front}
use rove.Reverse.Lines.{
  strip_cr, pop_empty, keep_line, ends_blank, split_lines, read_loop, read_frame, max_frame_bytes,
}

-- Neither of the two bytes that end a line.
abbrev pub IsInner : ℕ → Type 0
IsInner c = ((c == 10) ≡ false) × ((c == 13) ≡ false)

-- A line of a block: not empty, and without line breaks.
abbrev pub IsLine : Text → Type 0
IsLine l = (l ≢ []) × All IsInner l

-- Each line with its line feed, then a blank line.
unfoldable pub block : List Text → Text
block [] = 10 ∷ []
block (l ∷ ls) = l ++ 10 ∷ block ls

IsInner-IsFree : (s : Text) → All IsInner s → IsFree 10 s
IsInner-IsFree [] h = tt
IsInner-IsFree (c ∷ s) ((h, _), hs) = (h, IsInner-IsFree s hs)

strip_cr-IsInner : (s : Text) → All IsInner s → strip_cr s ≡ s
unfolding strip_cr
strip_cr-IsInner [] h = refl
strip_cr-IsInner (c ∷ []) ((_, h), _) = rw h refl
strip_cr-IsInner (c ∷ d ∷ s) (_, hs) = ap (λ t. c ∷ t) (strip_cr-IsInner (d ∷ s) hs)

split_on-block : (ls : List Text) → All IsLine ls → split_on 10 (block ls) ≡ ls ++ [] ∷ [] ∷ []
unfolding block split_on
split_on-block [] h = refl
split_on-block (l ∷ ls) ((_, hl), hls) =
    split_on_front 10 l (block ls) (IsInner-IsFree l hl) ∙ ap (λ t. l ∷ t) (split_on-block ls hls)

map-strip_cr :
    (ls : List Text) → All IsLine ls → map strip_cr (ls ++ [] ∷ [] ∷ []) ≡ ls ++ [] ∷ [] ∷ []
unfolding strip_cr
map-strip_cr [] h = refl
map-strip_cr (l ∷ ls) ((_, hl), hls) =
    rw (strip_cr-IsInner l hl) (ap (λ t. l ∷ t) (map-strip_cr ls hls))

keep_line-IsLine : (l : Text) (ls : List Text) → IsLine l → keep_line l ls ≡ l ∷ ls
keep_line-IsLine [] ls (h, _) = absurd (h refl)
keep_line-IsLine (c ∷ l) [] h = refl
keep_line-IsLine (c ∷ l) (m ∷ ms) h = refl

pop_empty-lines : (ls : List Text) → All IsLine ls → pop_empty (ls ++ [] ∷ [] ∷ []) ≡ ls
unfolding pop_empty
pop_empty-lines [] h = refl
pop_empty-lines (l ∷ ls) (hl, hls) = rw (pop_empty-lines ls hls) (keep_line-IsLine l ls hl)

-- No blank line ends behind a byte other than a line feed.
ends_blank-inner : (s : Text) (c : ℕ) → (c == 10) ≡ false → ends_blank (s ++ c ∷ []) ≡ false
unfolding ends_blank
ends_blank-inner [] c h = refl
ends_blank-inner (a ∷ []) c h = ground arith
ends_blank-inner (a ∷ b ∷ []) c h = ground arith
ends_blank-inner (a ∷ b ∷ d ∷ s) c h = ends_blank-inner (b ∷ d ∷ s) c h

ends_blank-last : (s : Text) (a b : ℕ) → ends_blank (s ++ a ∷ b ∷ []) ≡ (a == 10 && b == 10)
unfolding ends_blank
ends_blank-last [] a b = refl
ends_blank-last (x ∷ []) a b = refl
ends_blank-last (x ∷ y ∷ []) a b = refl
ends_blank-last (x ∷ y ∷ z ∷ s) a b = ends_blank-last (y ∷ z ∷ s) a b

append_two : {A : Type 0} (s : List A) (a b : A) → (s ++ a ∷ []) ++ b ∷ [] ≡ s ++ a ∷ b ∷ []
append_two [] a b = refl
append_two (x ∷ s) a b = ap (λ t. x ∷ t) (append_two s a b)

append_front : {A : Type 0} (s : List A) (a : A) (t : List A) → (s ++ a ∷ []) ++ t ≡ s ++ a ∷ t
append_front [] a t = refl
append_front (x ∷ s) a t = ap (λ r. x ∷ r) (append_front s a t)

module _ (u : Utf8) where
  -- A byte that neither ends the block nor exceeds the limit is passed over.
  read_loop-step :
      (buf : Text) (c : ℕ) (rest : Text)
      → length buf < 4096
      → ends_blank (buf ++ c ∷ []) ≡ false
      → read_loop u buf (c ∷ rest) ≡ read_loop u (buf ++ c ∷ []) rest
  unfolding read_loop
  read_loop-step buf c rest room h =
      let size : ltb max_frame_bytes (length (buf ++ c ∷ [])) ≡ false =
        le→ltb_false _ _ (omega (arith, length-append buf (c ∷ []))) in
      rw (size, h) refl

  read_loop-inner :
      (l buf rest : Text)
      → All IsInner l
      → length buf + length l ≤ 4096
      → read_loop u buf (l ++ rest) ≡ read_loop u (buf ++ l) rest
  read_loop-inner [] buf rest h room = ap (λ b. read_loop u b rest) (sym (append-nil buf))
  read_loop-inner (c ∷ l) buf rest ((hc, _), hl) room =
      read_loop-step buf c (l ++ rest) (omega arith) (ends_blank-inner buf c hc)
      ∙ read_loop-inner l (buf ++ c ∷ []) rest hl (omega (arith, length-append buf (c ∷ [])))
      ∙ ap (λ b. read_loop u b rest) (append_front buf c l)

  ends_blank-line :
      (l p : Text) (c : ℕ) → All IsInner (c ∷ l) → ends_blank ((p ++ c ∷ l) ++ 10 ∷ []) ≡ false
  ends_blank-line [] p c ((hc, _), _) = rw (append_two p c 10) (ends_blank-last p c 10 ∙ rw hc refl)
  ends_blank-line (d ∷ l) p c (_, hl) =
      ap (λ b. ends_blank (b ++ 10 ∷ [])) (sym (append_front p c (d ∷ l)))
      ∙ ends_blank-line l (p ++ c ∷ []) d hl

  -- A line and its line feed are passed over.
  read_loop-line :
      (l buf more rest : Text)
      → IsLine l
      → length buf + length l < 4096
      → read_loop u buf ((l ++ 10 ∷ more) ++ rest)
        ≡ read_loop u ((buf ++ l) ++ 10 ∷ []) (more ++ rest)
  read_loop-line [] buf more rest (h, _) room = absurd (h refl)
  read_loop-line (c ∷ l) buf more rest (_, h) room =
      ap (read_loop u buf) (append_assoc (c ∷ l) (10 ∷ more) rest)
      ∙ read_loop-inner (c ∷ l) buf (10 ∷ more ++ rest) h (omega arith)
      ∙ read_loop-step (buf ++ c ∷ l) 10 (more ++ rest) (omega (arith, length-append buf (c ∷ l)))
          (ends_blank-line l buf c h)

  read_loop-blank :
      (p rest : Text)
      → length p + 2 ≤ 4096
      → read_loop u (p ++ 10 ∷ []) (10 ∷ rest)
        ≡ ok (split_lines u ((p ++ 10 ∷ []) ++ 10 ∷ []), rest)
  unfolding read_loop
  read_loop-blank p rest room =
      let size : ltb max_frame_bytes (length ((p ++ 10 ∷ []) ++ 10 ∷ [])) ≡ false =
        le→ltb_false _ _
          (omega (arith, length-append (p ++ 10 ∷ []) (10 ∷ []), length-append p (10 ∷ []))) in
      let blank : ends_blank ((p ++ 10 ∷ []) ++ 10 ∷ []) ≡ true =
        ap ends_blank (append_two p 10 10) ∙ ends_blank-last p 10 10 in
      rw (size, blank) refl

  read_loop-block :
      (ls : List Text) (p rest : Text)
      → All IsLine ls
      → length p + 1 + length (block ls) ≤ 4096
      → read_loop u (p ++ 10 ∷ []) (block ls ++ rest)
        ≡ ok (split_lines u ((p ++ 10 ∷ []) ++ block ls), rest)
  unfolding block
  read_loop-block [] p rest h room = read_loop-blank p rest (omega arith)
  read_loop-block (l ∷ ls) p rest (hl, hls) room =
      let total = length-append l (10 ∷ block ls) in
      let before = length-append p (10 ∷ []) in
      read_loop-line l (p ++ 10 ∷ []) (block ls) rest hl (omega (arith, total, before))
      ∙ read_loop-block ls ((p ++ 10 ∷ []) ++ l) rest hls
          (omega (arith, total, before, length-append (p ++ 10 ∷ []) l))
      ∙ ap (λ b. ok (split_lines u b, rest))
          (append_assoc ((p ++ 10 ∷ []) ++ l) (10 ∷ []) (block ls)
            ∙ append_assoc (p ++ 10 ∷ []) l (10 ∷ block ls))

  split_lines-block :
      (ls : List Text) → All IsLine ls → u.valid (block ls) ≡ true → split_lines u (block ls) ≡ ls
  unfolding split_lines
  split_lines-block ls h v =
      rw (u.from_utf8_lossy-valid (block ls) v, split_on-block ls h, map-strip_cr ls h)
        (pop_empty-lines ls h)

  -- A block of lines in valid UTF-8, of at most 4096 bytes, is read back as its lines; the reader
  -- stops behind the blank line, so that the rest of the stream is left as it is.
  pub read_frame-block :
      (l : Text) (ls : List Text) (rest : Text)
      → All IsLine (l ∷ ls)
      → u.valid (block (l ∷ ls)) ≡ true
      → length (block (l ∷ ls)) ≤ 4096
      → read_frame u (block (l ∷ ls) ++ rest) ≡ ok (l ∷ ls, rest)
  unfolding read_frame block
  read_frame-block l ls rest (hl, hls) v room =
      let total = length-append l (10 ∷ block ls) in
      read_loop-line l [] (block ls) rest hl (omega (arith, total))
      ∙ read_loop-block ls l rest hls (omega (arith, total))
      ∙ ap (λ b. ok (split_lines u b, rest)) (append_assoc l (10 ∷ []) (block ls))
      ∙ ap (λ lines. ok (lines, rest)) (split_lines-block (l ∷ ls) (hl, hls) v)
