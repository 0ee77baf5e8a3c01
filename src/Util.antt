-- ===== src/Util.antt =====
-- The protocol helpers, src/util.rs. A connection is the list of the chunks that its reads return, a
-- read of nothing its end.
pub mod Head
pub mod Secrets
mod Tests
use rove.Base.{
  ℕ, zero, suc, ◌+◌, ◌-◌, ◌*◌, ◌/◌, ◌%◌, ◌^◌, ◌≤◌, ◌<◌, min, max, bit_and, bit_or, bit_xor,
}
use rove.Base.{
  ◌≡◌, refl, sym, ap, ◌∙◌, ◌≢◌, ◌↔◌, ◌⊎◌, inl, inr, Bool, true, false, not, ◌&&◌, ◌||◌, Option,
  none, some, List, [], ◌∷◌, ◌++◌, map, arith,
}
use rove.Base.{
  ltb, leb, ◌==◌, if◌then◌else◌, ltb→lt, lt→ltb, leb→le, le→leb, le→ltb_false, ==_iff, Bool-cases,
  Option-cases,
}
use rove.Base.{
  drop-append_add, All-take, All-append, replicate, length, get_elem?, set, take, drop, any, all,
  All, length-append, length-take, length-drop, take-append_length, drop-append_length,
  take-append-drop, any-append, length-set, get_elem?-set_self, get_elem?-set_ne,
}
use rove.Base.Bytes.{
  ascii, IsByte, to_le_bytes, to_be_bytes, from_le_bytes, from_be_bytes, slice, byte_at, xor_prefix,
  length-to_le_bytes, length-to_be_bytes, from_le_bytes-to_le_bytes, from_be_bytes-to_be_bytes,
  to_le_bytes-IsByte, length-xor_prefix, xor_prefix_twice, xor_prefix-append,
}
use rove.Base.Eq.{Eq, same, same_refl, list_beq, list_beq_iff, member, nat_eq, list_eq}
use rove.Base.Bytes.{ascii}
use rove.Base.Text.{
  Text, is_empty, to_ascii_lowercase, trim, trim_matches, strip_prefix, contains_text, split_on,
  split_once, join_with,
}
use rove.Base.Text.Split.{IsFree, split_on-IsFree, split_on-join_with}
use rove.Base.Result.{Result, ok, err, ◌>>=◌, ensure, ok_or}
use rove.Base.Assoc.{find, has_key, insert}
use mathlib.Core.List.{reverse}
use rove.Base.Decimal.{parse_unsigned}
use rove.Base.Text.{starts_with}
use rove.Base.Text.Utf8.{Utf8}
use rove.Base.Text.Words.{split_whitespace}

abbrev pub one_more : Option ℕ → Option ℕ
one_more none = none
one_more (some i) = some (suc i)

-- The first place where the needle stands.
unfoldable pub position : Text → Text → Option ℕ
position needle [] = none
position needle (c ∷ s) =
    let rest = one_more (position needle s) in if starts_with needle (c ∷ s) then some 0 else rest

unfoldable pub find_sub : Text → Text → Option ℕ
find_sub haystack needle =
    if is_empty needle || ltb (length haystack) (length needle)
    then none
    else position needle haystack

abbrev pub head_end : Text
head_end = 13 ∷ 10 ∷ 13 ∷ 10 ∷ []

-- Only the size of a header block is checked.
pub data HeadError : Type 0 where
  header_too_large : HeadError

-- What was read so far, and the reads to come.
unfoldable pub read_more : ℕ → Text → List Text → Result HeadError (Text × Text)
read_more cap buf [] = ok (buf, [])
read_more cap buf ([] ∷ chunks) = ok (buf, [])
read_more cap buf ((c ∷ chunk) ∷ chunks) =
    let next = buf ++ c ∷ chunk in
    elim (find_sub next head_end) [
      | some start ↦
          if ltb cap (start + 4)
          then err header_too_large
          else ok (take (start + 4) next, drop (start + 4) next)
      | none ↦ if ltb cap (length next) then err header_too_large else read_more cap next chunks
    ]

unfoldable pub read_http_head_with_remainder : ℕ → List Text → Result HeadError (Text × Text)
unfolding read_more
read_http_head_with_remainder cap chunks = read_more cap [] chunks

unfoldable pub read_http_head : ℕ → List Text → Result HeadError Text
read_http_head cap chunks = do
  (head, remainder) ← read_http_head_with_remainder cap chunks
  ok (head ++ remainder)

abbrev pub second_word : List Text → Option Text
second_word [] = none
second_word (v ∷ []) = none
second_word (v ∷ w ∷ ws) = some w

unfoldable pub line_end : Text → ℕ
line_end head = elim (find_sub head (13 ∷ 10 ∷ [])) [ none ↦ length head | some i ↦ i ]

-- The status in the first line starts with a 2.
unfoldable pub http_2xx : Utf8 → Text → Bool
http_2xx u head =
    elim (second_word (split_whitespace (u.from_utf8_lossy (take (line_end head) head)))) [
      | none ↦ false
      | some code ↦ starts_with (ascii "2") code
    ]

-- `rsplit_once(d)`
unfoldable pub rsplit_once : ℕ → Text → Option (Text × Text)
rsplit_once d s = elim (split_once d (reverse s)) [
  | none ↦ none
  | some (back, front) ↦ some (reverse front, reverse back)
]

-- A host with the port that a text holds.
abbrev pub with_port : Text → Text → Option (Text × ℕ)
with_port host text = elim (parse_unsigned 65535 text) [
  | none ↦ none
  | some port ↦ some (host, port)
]

unfoldable pub bracketed : Text → Option (Text × ℕ)
bracketed rest = elim (position (ascii "]:") rest) [
  | none ↦ none
  | some i ↦ with_port (take i rest) (drop (i + 2) rest)
]

unfoldable pub last_colon : Text → Option (Text × ℕ)
last_colon t = elim (rsplit_once b':' t) [ none ↦ none | some (h, p) ↦ with_port h p ]

unfoldable pub split_host_port : Text → Option (Text × ℕ)
unfolding bracketed last_colon
split_host_port t = elim (strip_prefix (ascii "[") (trim t)) [
  | some rest ↦ bracketed rest
  | none ↦ last_colon (trim t)
]

unfoldable pub host_of : Text → Text
host_of addr = elim (rsplit_once b':' addr) [ none ↦ addr | some (h, p) ↦ h ]

-- `bytes.get(i).copied().unwrap_or(0)` of both, from the index on: the loop over so many indices.
unfoldable pub diff_loop : ℕ → ℕ → Text → Text → ℕ → ℕ
diff_loop zero i left right diff = diff
diff_loop (suc n) i left right diff =
    diff_loop n (i + 1) left right (bit_or diff (bit_xor (byte_at left i) (byte_at right i)))

unfoldable pub constant_time_eq : Text → Text → Bool
unfolding diff_loop
constant_time_eq left right =
    diff_loop (max (length left) (length right)) 0 left right (bit_xor (length left) (length right))
    == 0
