-- ===== src/Reverse/Lines.antt =====
-- Header blocks of the reverse hop's streams, src/reverse/frame.rs: reading up to the blank line,
-- splitting into lines, and the headers. A stream is the list of the bytes that are still to come.
pub mod Block
use rove.Base.{
  ℕ, zero, suc, ◌+◌, ◌-◌, ◌*◌, ◌/◌, ◌%◌, ◌^◌, ◌≤◌, ◌<◌, min, max, bit_and, bit_or, bit_xor,
}
use rove.Base.{
  ◌≡◌, refl, sym, ap, ◌∙◌, ◌≢◌, ◌↔◌, ◌⊎◌, inl, inr, Bool, true, false, not, ◌&&◌, ◌||◌, Option,
  none, some, List, [], ◌∷◌, ◌++◌, map, arith,
}
use rove.Base.{
  ltb, leb, ◌==◌, if◌then◌else◌, ltb→lt, lt→ltb, leb→le, le→leb, le→ltb_false, ==_iff, Bool-cases,
  Option-cases,
}
use rove.Base.{
  drop-append_add, All-take, All-append, replicate, length, get_elem?, set, take, drop, any, all,
  All, length-append, length-take, length-drop, take-append_length, drop-append_length,
  take-append-drop, any-append, length-set, get_elem?-set_self, get_elem?-set_ne,
}
use rove.Base.Bytes.{
  ascii, IsByte, to_le_bytes, to_be_bytes, from_le_bytes, from_be_bytes, slice, byte_at, xor_prefix,
  length-to_le_bytes, length-to_be_bytes, from_le_bytes-to_le_bytes, from_be_bytes-to_be_bytes,
  to_le_bytes-IsByte, length-xor_prefix, xor_prefix_twice, xor_prefix-append,
}
use rove.Base.Eq.{Eq, same, same_refl, list_beq, list_beq_iff, member, nat_eq, list_eq}
use rove.Base.Bytes.{ascii}
use rove.Base.Text.{
  Text, is_empty, to_ascii_lowercase, trim, trim_matches, strip_prefix, contains_text, split_on,
  split_once, join_with,
}
use rove.Base.Text.Split.{IsFree, split_on-IsFree, split_on-join_with}
use rove.Base.Result.{Result, ok, err, ◌>>=◌, ensure, ok_or}
use rove.Base.Assoc.{find, has_key, insert}
use rove.Base.Text.Utf8.{Utf8}

abbrev pub max_frame_bytes : ℕ
max_frame_bytes = 4096

pub data ReadError : Type 0 where
  unexpected_eof too_large : ReadError

-- `line.strip_suffix('\r').unwrap_or(line)`
unfoldable pub strip_cr : Text → Text
strip_cr [] = []
strip_cr (c ∷ []) = if c == 13 then [] else c ∷ []
strip_cr (c ∷ d ∷ s) = c ∷ strip_cr (d ∷ s)

abbrev pub keep_line : Text → List Text → List Text
keep_line l [] = if is_empty l then [] else l ∷ []
keep_line l (m ∷ ms) = l ∷ m ∷ ms

-- Empty lines go from the end.
unfoldable pub pop_empty : List Text → List Text
pop_empty [] = []
pop_empty (l ∷ ls) = keep_line l (pop_empty ls)

-- `buf.ends_with(b"\n\n")`
unfoldable pub ends_blank : Text → Bool
ends_blank [] = false
ends_blank (a ∷ []) = false
ends_blank (a ∷ b ∷ []) = a == 10 && b == 10
ends_blank (a ∷ b ∷ c ∷ s) = ends_blank (b ∷ c ∷ s)

module _ (u : Utf8) where
  unfoldable pub split_lines : Text → List Text
  unfolding strip_cr pop_empty
  split_lines buf = pop_empty (map strip_cr (split_on 10 (u.from_utf8_lossy buf)))

  -- The bytes read so far, and those that the stream still has.
  unfoldable pub read_loop : Text → Text → Result ReadError (List Text × Text)
  unfolding ends_blank split_lines
  read_loop buf [] = err unexpected_eof
  read_loop buf (b ∷ rest) =
      let next = buf ++ b ∷ [] in
      let more = read_loop next rest in
      if ltb max_frame_bytes (length next)
      then err too_large
      else (if ends_blank next then ok (split_lines next, rest) else more)

  unfoldable pub read_frame : Text → Result ReadError (List Text × Text)
  unfolding read_loop
  read_frame stream = read_loop [] stream

unfoldable pub parse_headers : List Text → List (Text × Text)
parse_headers [] = []
parse_headers (line ∷ lines) = elim (split_once b':' line) [
  | none ↦ parse_headers lines
  | some (name, value) ↦ (to_ascii_lowercase (trim name), trim value) ∷ parse_headers lines
]

unfoldable pub header : List (Text × Text) → Text → Option Text
header headers name = find headers name
