-- ===== src/Ingress/Replies.antt =====
-- Replies of rove-ingress/1 and the reader of header blocks, src/ingress/frame.rs.
use rove.Base.{◌-◌}
use rove.Base.{Bool, true, false, ◌&&◌, ◌||◌, Option, none, List, [], ◌∷◌, ◌++◌}
use rove.Base.{ltb, leb, ◌==◌, if◌then◌else◌}
use rove.Base.{length, drop}
use rove.Base.Bytes.{ascii}
use rove.Base.Eq.{list_beq, nat_eq, list_eq}
use rove.Base.Bytes.{ascii}
use rove.Base.Text.{Text, is_empty, strip_prefix, split_on}
use rove.Base.Result.{Result, ok, err, ◌>>=◌, ensure, ok_or}
use rove.Base.Assoc.{find}
use rove.Base.Text.{trim_end_matches}
use rove.Base.Text.Utf8.{Utf8}
use rove.Ingress.Datagram.{FrameError, malformed, too_large}
use rove.Ingress.Frame.{
  Reply, reply_ok, reply_err, validate_field, validate_header_name, parse_headers_unrestricted,
  max_frame_bytes, line,
}

-- The order of strings, by their bytes.
abbrev pub text_leb : Text → Text → Bool
text_leb [] t = true
text_leb (a ∷ s) [] = false
text_leb (a ∷ s) (b ∷ t) = ltb a b || a == b && text_leb s t

unfoldable pub insert_by_name : Text × Text → List (Text × Text) → List (Text × Text)
insert_by_name h [] = h ∷ []
insert_by_name (n, v) ((m, w) ∷ rest) =
    let more = insert_by_name (n, v) rest in
    if text_leb n m then (n, v) ∷ (m, w) ∷ rest else (m, w) ∷ more

unfoldable pub sort_by_name : List (Text × Text) → List (Text × Text)
sort_by_name [] = []
sort_by_name (h ∷ hs) = insert_by_name h (sort_by_name hs)

unfoldable pub encode_headers : List (Text × Text) → Result FrameError Text
encode_headers [] = ok (line [])
encode_headers ((name, value) ∷ rest) = do
  _ ← validate_header_name name
  _ ← validate_field value 1024 (ascii "invalid reply header")
  more ← encode_headers rest
  ok (line (name ++ (ascii ": " ++ value)) ++ more)

unfoldable pub encode_reply : Reply → Result FrameError Text
encode_reply (reply_err code) = do
  _ ← validate_field code 64 (ascii "invalid error code")
  ok (line (ascii "ERR " ++ code) ++ line [])
encode_reply (reply_ok headers) = do
  out ← encode_headers (sort_by_name headers)
  _ ← ensure (leb (length (line (ascii "OK") ++ out)) max_frame_bytes) too_large
  ok (line (ascii "OK") ++ out)

unfoldable pub parse_error : Text → List Text → Result FrameError Reply
parse_error first rest = do
  code ← ok_or (strip_prefix (ascii "ERR ") first) (malformed (ascii "expected OK or ERR reply"))
  _ ← validate_field code 64 (ascii "invalid error code")
  _ ← ensure (is_empty rest) (malformed (ascii "ERR reply must not have headers"))
  ok (reply_err code)

unfoldable pub parse_fields : List Text → Result FrameError Reply
parse_fields rest = do headers ← parse_headers_unrestricted rest; ok (reply_ok headers)

unfoldable pub parse_reply : List Text → Result FrameError Reply
unfolding parse_error parse_fields
parse_reply [] = err (malformed (ascii "empty reply"))
parse_reply (first ∷ rest) =
    if list_beq first (ascii "OK") then parse_fields rest else parse_error first rest

unfoldable pub reply_header : Reply → Text → Option Text
reply_header (reply_ok headers) name = find headers name
reply_header (reply_err code) name = none

pub data ReadError : Type 0 where
  unexpected_eof exceeds_limit not_utf8 : ReadError

-- `bytes.ends_with(end)`
abbrev pub ends_with : Text → Text → Bool
ends_with bytes end =
    leb (length end) (length bytes) && list_beq (drop (length bytes - length end) bytes) end

unfoldable pub replace_crlf : Text → Text
replace_crlf [] = []
replace_crlf (c ∷ []) = c ∷ []
replace_crlf (c ∷ d ∷ s) = elim (c == 13 && d == 10) [
  | true ↦ 10 ∷ replace_crlf s
  | false ↦ c ∷ replace_crlf (d ∷ s)
]

module _ (u : Utf8) where
  unfoldable pub decode_lines : Text → Result ReadError (List Text)
  decode_lines bytes = do
    _ ← ensure (u.valid bytes) not_utf8
    ok (split_on 10 (trim_end_matches 10 (replace_crlf bytes)))

  -- The bytes read so far, and those that the stream still has.
  unfoldable pub read_loop : Text → Text → Result ReadError (List Text × Text)
  unfolding decode_lines
  read_loop bytes [] = err unexpected_eof
  read_loop bytes (b ∷ rest) =
      let next = bytes ++ b ∷ [] in
      let more = read_loop next rest in
      if ltb max_frame_bytes (length next)
      then err exceeds_limit
      else (if ends_with next (10 ∷ 10 ∷ []) || ends_with next (13 ∷ 10 ∷ 13 ∷ 10 ∷ [])
          then decode_lines next >>= (λ lines. ok (lines, rest))
          else more)

  unfoldable pub read_frame : Text → Result ReadError (List Text × Text)
  unfolding read_loop
  read_frame stream = read_loop [] stream
