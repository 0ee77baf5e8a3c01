-- ===== src/Util/Head.antt =====
-- The header block of a connection, however its bytes arrive.
use rove.Base.{ℕ, suc, ◌+◌, ◌≤◌, ◌<◌}
use rove.Base.{
  ◌≡◌, refl, sym, ap, ◌∙◌, ◌≢◌, ◌⊎◌, inl, inr, true, false, Option, none, some, List, [], ◌∷◌, ◌++◌,
  arith,
}
use rove.Base.{ltb, le→ltb_false, Bool-cases, Option-cases}
use rove.Base.{length, take, drop, All}
use rove.Base.Eq.{nat_eq, list_eq}
use rove.Base.Text.{Text}
use rove.Base.Result.{Result, ok}
use mathlib.Core.List.{append_assoc, append-nil}
use mathlib.Core.Path.{subst}
use rove.Base.Text.{starts_with}
use rove.Util.{
  one_more, position, find_sub, head_end, HeadError, read_more, read_http_head_with_remainder,
}

starts_with-append :
    (needle s rest : Text)
    → length needle ≤ length s
    → starts_with needle (s ++ rest) ≡ starts_with needle s
unfolding starts_with
starts_with-append [] s rest h = refl
starts_with-append (c ∷ needle) [] rest h = absurd (omega arith)
starts_with-append (c ∷ needle) (d ∷ s) rest h =
    rw (starts_with-append needle s rest (omega arith)) refl

length-starts_with : (needle s : Text) → starts_with needle s ≡ true → length needle ≤ length s
unfolding starts_with
length-starts_with [] s h = omega arith
length-starts_with (c ∷ needle) [] h = cc
length-starts_with (c ∷ needle) (d ∷ s) h =
    omega (arith, length-starts_with needle s (ground arith))

one_more-some : (o : Option ℕ) (i : ℕ) → one_more o ≡ some i → (j : ℕ) × (o ≡ some j) × (i ≡ suc j)
one_more-some none i h = cc
one_more-some (some j) i h = (j, refl, ground arith)

-- Either the needle stands here, or its place is one behind that in the rest.
position-cases :
    (needle : Text) (c : ℕ) (s : Text) (i : ℕ)
    → position needle (c ∷ s) ≡ some i
    → ((starts_with needle (c ∷ s) ≡ true) × (i ≡ 0))
      ⊎ ((j : ℕ) × (starts_with needle (c ∷ s) ≡ false)
          × (position needle s ≡ some j)
          × (i ≡ suc j))
unfolding position
position-cases needle c s i h = elim (Bool-cases (starts_with needle (c ∷ s))) [
  | inl here ↦ inl (here, let e : some 0 ≡ some i = rw here at h in ground arith)
  | inr off ↦
      let (j, found, e) = one_more-some (position needle s) i (rw off at h) in
      inr (j, off, found, e)
]

one_more-none : (o : Option ℕ) → one_more o ≡ none → o ≡ none
one_more-none none h = refl
one_more-none (some j) h = cc

position-none :
    (needle : Text) (c : ℕ) (s : Text)
    → position needle (c ∷ s) ≡ none
    → (starts_with needle (c ∷ s) ≡ false) × (position needle s ≡ none)
unfolding position
position-none needle c s h = elim (Bool-cases (starts_with needle (c ∷ s))) [
  | inl here ↦ absurd (let e : some 0 ≡ none = rw here at h in cc)
  | inr off ↦ (off, one_more-none (position needle s) (rw off at h))
]

position-bound :
    (needle s : Text) (i : ℕ) → position needle s ≡ some i → i + length needle ≤ length s
position-bound needle [] i h = unfold position in cc
position-bound needle (c ∷ s) i h = elim (position-cases needle c s i h) [
  | inl (here, e) ↦ omega (arith, length-starts_with needle (c ∷ s) here)
  | inr (j, off, found, e) ↦ omega (arith, position-bound needle s j found)
]

-- What is appended does not move the first place.
position-append :
    (needle s rest : Text) (i : ℕ)
    → position needle s ≡ some i
    → position needle (s ++ rest) ≡ some i
unfolding position
position-append needle [] rest i h = cc
position-append needle (c ∷ s) rest i h = elim (position-cases needle c s i h) [
  | inl (here, e) ↦
      let same = starts_with-append needle (c ∷ s) rest (length-starts_with needle (c ∷ s) here) in
      rw (same, here) (ap some (sym e))
  | inr (j, off, found, e) ↦
      let same =
        starts_with-append needle (c ∷ s) rest (omega (arith, position-bound needle s j found)) in
      rw (same, off, position-append needle s rest j found) (ap some (sym e))
]

-- A place that appears with what is appended reaches into it.
position-new :
    (needle s rest : Text) (i : ℕ)
    → needle ≢ []
    → position needle s ≡ none
    → position needle (s ++ rest) ≡ some i
    → length s < i + length needle
position-new [] s rest i filled absent h = absurd (filled refl)
position-new (n ∷ needle) [] rest i filled absent h = omega arith
position-new (n ∷ needle) (c ∷ s) rest i filled absent h =
    let (off, none_here) = position-none (n ∷ needle) c s absent in
    elim (position-cases (n ∷ needle) c (s ++ rest) i h) [
      | inl (here, e) ↦ elim (Bool-cases (ltb (length (c ∷ s)) (length (n ∷ needle)))) [
        | inl short ↦ ground arith
        | inr long ↦
            let same = starts_with-append (n ∷ needle) (c ∷ s) rest (ground arith) in absurd (cc)
      ]
      | inr (j, away, found, e) ↦
          omega (arith, position-new (n ∷ needle) s rest j filled none_here found)
    ]

find_sub-head_end : (s : Text) → find_sub s head_end ≡ position head_end s
unfolding find_sub
find_sub-head_end s = elim (Bool-cases (ltb (length s) 4)) [
  | inl short ↦ elim (Option-cases (position head_end s)) [
    | inl absent ↦ rw (short, absent) refl
    | inr (i, found) ↦ absurd (let bound = position-bound head_end s i found in ground arith)
  ]
  | inr long ↦ rw long refl
]

abbrev pub concat : List Text → Text
concat [] = []
concat (s ∷ ss) = s ++ concat ss

module _ (cap : ℕ) (buf : Text) (c : ℕ) (chunk : Text) (chunks : List Text) where
  read_more-found :
      (i : ℕ)
      → find_sub (buf ++ c ∷ chunk) head_end ≡ some i
      → ltb cap (i + 4) ≡ false
      → read_more cap buf ((c ∷ chunk) ∷ chunks)
        ≡ ok (take (i + 4) (buf ++ c ∷ chunk), drop (i + 4) (buf ++ c ∷ chunk))
  unfolding read_more
  read_more-found i e h = rw (e, h, read_more) refl

  read_more-on :
      find_sub (buf ++ c ∷ chunk) head_end ≡ none
      → ltb cap (length (buf ++ c ∷ chunk)) ≡ false
      → read_more cap buf ((c ∷ chunk) ∷ chunks) ≡ read_more cap (buf ++ c ∷ chunk) chunks
  unfolding read_more
  read_more-on e h = rw (e, h, read_more) refl

-- Of the bytes read before and the chunks, the head is the first bytes, and the remainder is the rest
-- of what was read by the first chunk, the one behind `k` others, with which the marker is there.
abbrev IsSplit : ℕ → Text → List Text → Result HeadError (Text × Text) → Type 0
IsSplit n buf chunks r =
    (k : ℕ) × (position head_end (buf ++ concat (take k chunks)) ≡ none)
    × (n ≤ length (buf ++ concat (take (suc k) chunks)))
    × (r
        ≡ ok (
          take n (buf ++ concat (take (suc k) chunks)),
          drop n (buf ++ concat (take (suc k) chunks)),
        ))

-- One more chunk, whether the marker stands in it or not.
read_more-step :
    (cap : ℕ) (buf : Text) (c : ℕ) (chunk : Text) (chunks : List Text) (start : ℕ)
    → start + 4 ≤ cap
    → position head_end buf ≡ none
    → position head_end ((buf ++ c ∷ chunk) ++ concat chunks) ≡ some start
    → (position head_end (buf ++ c ∷ chunk) ≡ none
        → IsSplit (start + 4) (buf ++ c ∷ chunk) chunks (read_more cap (buf ++ c ∷ chunk) chunks))
    → (position head_end (buf ++ c ∷ chunk) ≡ none)
      ⊎ ((i : ℕ) × (position head_end (buf ++ c ∷ chunk) ≡ some i))
    → IsSplit (start + 4) buf ((c ∷ chunk) ∷ chunks) (read_more cap buf ((c ∷ chunk) ∷ chunks))
read_more-step cap buf c chunk chunks start room absent found later (inl e) =
    let next = buf ++ c ∷ chunk in
    let missing : find_sub next head_end ≡ none = find_sub-head_end next ∙ e in
    let reach = position-new head_end next (concat chunks) start (λ k. cc) e found in
    let small : ltb cap (length next) ≡ false = le→ltb_false cap (length next) (omega arith) in
    let (k, before, long, result) = later e in
    let parts : (n : ℕ)
        → next ++ concat (take n chunks) ≡ buf ++ concat ((c ∷ chunk) ∷ take n chunks) =
      λ n. append_assoc buf (c ∷ chunk) (concat (take n chunks)) in
    (
      suc k,
      ap (position head_end) (sym (parts k)) ∙ before,
      subst (λ t. start + 4 ≤ length t) (parts (suc k)) long,
      read_more-on cap buf c chunk chunks missing small
          ∙ subst (λ t. read_more cap next chunks ≡ ok (take (start + 4) t, drop (start + 4) t))
              (parts (suc k)) result,
    )
read_more-step cap buf c chunk chunks start room absent found later (inr (i, e)) =
    let next = buf ++ c ∷ chunk in
    let there : find_sub next head_end ≡ some i = find_sub-head_end next ∙ e in
    let kept = position-append head_end next (concat chunks) i e in
    let same : i ≡ start = cc in
    let bound = position-bound head_end next i e in
    let fits : ltb cap (i + 4) ≡ false = le→ltb_false cap (i + 4) (omega arith) in
    let whole : next ≡ buf ++ concat ((c ∷ chunk) ∷ []) =
      ap (λ t. buf ++ c ∷ t) (sym (append-nil chunk)) in
    (
      0,
      ap (position head_end) (append-nil buf) ∙ absent,
      subst (λ t. start + 4 ≤ length t) whole (omega arith),
      read_more-found cap buf c chunk chunks i there fits
          ∙ ap (λ n. ok (take (n + 4) next, drop (n + 4) next)) same
          ∙ ap (λ t. ok (take (start + 4) t, drop (start + 4) t)) whole,
    )

read_more-chunks :
    (cap : ℕ) (chunks : List Text) (buf : Text) (start : ℕ)
    → All (λ chunk. chunk ≢ []) chunks
    → position head_end buf ≡ none
    → position head_end (buf ++ concat chunks) ≡ some start
    → start + 4 ≤ cap
    → IsSplit (start + 4) buf chunks (read_more cap buf chunks)
read_more-chunks cap [] buf start all_filled absent found room =
    absurd (let e = ap (position head_end) (append-nil buf) in cc)
read_more-chunks cap ([] ∷ chunks) buf start (filled, more) absent found room = absurd (filled refl)
read_more-chunks cap ((c ∷ chunk) ∷ chunks) buf start (filled, more) absent found room =
    let parts : (buf ++ c ∷ chunk) ++ concat chunks ≡ buf ++ concat ((c ∷ chunk) ∷ chunks) =
      append_assoc buf (c ∷ chunk) (concat chunks) in
    let found' : position head_end ((buf ++ c ∷ chunk) ++ concat chunks) ≡ some start =
      ap (position head_end) parts ∙ found in
    read_more-step cap buf c chunk chunks start room absent found'
      (λ e. read_more-chunks cap chunks (buf ++ c ∷ chunk) start more e found' room)
      (Option-cases (position head_end (buf ++ c ∷ chunk)))

-- However the bytes of a connection are cut into reads, none of them empty: if the first empty line
-- ends within the cap, the reader stops with the first read after which that line is there, the head
-- is the bytes up to the end of the line, and the remainder is all the rest of what was read.
pub read_http_head_with_remainder-concat :
    (cap : ℕ) (chunks : List Text) (start : ℕ)
    → All (λ chunk. chunk ≢ []) chunks
    → find_sub (concat chunks) head_end ≡ some start
    → start + 4 ≤ cap
    → (k : ℕ) × (find_sub (concat (take k chunks)) head_end ≡ none)
      × (start + 4 ≤ length (concat (take (suc k) chunks)))
      × (read_http_head_with_remainder cap chunks
          ≡ ok (
            take (start + 4) (concat (take (suc k) chunks)),
            drop (start + 4) (concat (take (suc k) chunks)),
          ))
unfolding read_http_head_with_remainder position
read_http_head_with_remainder-concat cap chunks start all_filled found room =
    let (k, before, long, result) =
      read_more-chunks cap chunks [] start all_filled refl
        (sym (find_sub-head_end (concat chunks)) ∙ found) room in
    (k, find_sub-head_end (concat (take k chunks)) ∙ before, long, result)
