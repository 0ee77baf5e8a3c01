-- ===== src/Reverse/Frame.antt =====
-- The requests and replies on the reverse hop's streams, src/reverse/frame.rs.
pub mod Blocks
pub mod RoundTrip
use rove.Base.{
  ℕ, zero, suc, ◌+◌, ◌-◌, ◌*◌, ◌/◌, ◌%◌, ◌^◌, ◌≤◌, ◌<◌, min, max, bit_and, bit_or, bit_xor,
}
use rove.Base.{
  ◌≡◌, refl, sym, ap, ◌∙◌, ◌≢◌, ◌↔◌, ◌⊎◌, inl, inr, Bool, true, false, not, ◌&&◌, ◌||◌, Option,
  none, some, List, [], ◌∷◌, ◌++◌, map, arith,
}
use rove.Base.{
  ltb, leb, ◌==◌, if◌then◌else◌, ltb→lt, lt→ltb, leb→le, le→leb, le→ltb_false, ==_iff, Bool-cases,
  Option-cases,
}
use rove.Base.{
  drop-append_add, All-take, All-append, replicate, length, get_elem?, set, take, drop, any, all,
  All, length-append, length-take, length-drop, take-append_length, drop-append_length,
  take-append-drop, any-append, length-set, get_elem?-set_self, get_elem?-set_ne,
}
use rove.Base.Bytes.{
  ascii, IsByte, to_le_bytes, to_be_bytes, from_le_bytes, from_be_bytes, slice, byte_at, xor_prefix,
  length-to_le_bytes, length-to_be_bytes, from_le_bytes-to_le_bytes, from_be_bytes-to_be_bytes,
  to_le_bytes-IsByte, length-xor_prefix, xor_prefix_twice, xor_prefix-append,
}
use rove.Base.Eq.{Eq, same, same_refl, list_beq, list_beq_iff, member, nat_eq, list_eq}
use rove.Base.Bytes.{ascii}
use rove.Base.Text.{
  Text, is_empty, to_ascii_lowercase, trim, trim_matches, strip_prefix, contains_text, split_on,
  split_once, join_with,
}
use rove.Base.Text.Split.{IsFree, split_on-IsFree, split_on-join_with}
use rove.Base.Result.{Result, ok, err, ◌>>=◌, ensure, ok_or}
use rove.Base.Assoc.{find, has_key, insert}
use rove.Base.Decimal.{to_decimal, parse_unsigned}
use rove.Base.Text.Words.{split_whitespace}
use rove.Reverse.Lines.{parse_headers, header}

pub data FrameError : Type 0 where
  malformed : Text → FrameError
  unsupported_version : FrameError

abbrev pub protocol_version : Text
protocol_version = ascii "rove-reverse/1"

pub record RegisterRequest : Type 0 where
  pub hop_id : Text
  pub token : Text
  pub edge_id : Option Text
  pub caps : List Text

pub record TunnelRequest : Type 0 where
  pub host : Text
  pub port : ℕ
  pub tunnel_id : Option Text

pub record AssociateRequest : Type 0 where
  pub session_id : ℕ
  pub assoc_id : Option Text

pub record DissociateRequest : Type 0 where
  pub session_id : ℕ

pub data Reply : Type 0 where
  reply_ok : Reply
  reply_err : Text → Reply

-- `value.filter(|v| !v.is_empty())`
abbrev pub non_empty : Option Text → Option Text
non_empty none = none
non_empty (some v) = if is_empty v then none else some v

abbrev pub line : Text → Text
line l = l ++ 10 ∷ []

-- The line of a header that is there.
abbrev pub optional_line : Text → Option Text → Text
optional_line name none = []
optional_line name (some v) = line (name ++ v)

unfoldable pub supports_udp : RegisterRequest → Bool
supports_udp r = any (λ c. list_beq c (ascii "udp")) r.caps

unfoldable pub encode_register : RegisterRequest → Text
encode_register r =
    line (ascii "REGISTER " ++ protocol_version)
    ++ (line (ascii "hop-id: " ++ r.hop_id)
        ++ (line (ascii "token: " ++ r.token)
            ++ (optional_line (ascii "edge-id: ") r.edge_id
                ++ (optional_line (ascii "caps: ")
                      (if is_empty r.caps then none else some (join_with b',' r.caps))
                    ++ line []))))

abbrev drop_empty : List Text → List Text
drop_empty [] = []
drop_empty (c ∷ cs) = let rest = drop_empty cs in if is_empty c then rest else c ∷ rest

unfoldable pub parse_caps : Option Text → List Text
parse_caps none = []
parse_caps (some v) = drop_empty (map (λ c. to_ascii_lowercase (trim c)) (split_on b',' v))

unfoldable pub parse_register : List Text → Result FrameError RegisterRequest
parse_register [] = err (malformed (ascii "empty register frame"))
parse_register (first ∷ rest) = do
  version ←
      ok_or (strip_prefix (ascii "REGISTER ") first) (malformed (ascii "expected REGISTER verb"))
  _ ← ensure (list_beq (trim version) protocol_version) unsupported_version
  let headers = parse_headers rest
  hop_id ← ok_or (non_empty (header headers (ascii "hop-id"))) (malformed (ascii "missing hop-id"))
  token ← ok_or (header headers (ascii "token")) (malformed (ascii "missing token"))
  ok record {
    hop_id = hop_id;
    token = token;
    edge_id = non_empty (header headers (ascii "edge-id"));
    caps = parse_caps (header headers (ascii "caps"));
  }

unfoldable pub encode_tunnel : TunnelRequest → Text
encode_tunnel t =
    line (ascii "CONNECT " ++ (t.host ++ b' ' ∷ to_decimal t.port))
    ++ (optional_line (ascii "tunnel-id: ") t.tunnel_id ++ line [])

abbrev pub two_words : List Text → Result FrameError (Text × Text)
two_words [] = err (malformed (ascii "missing target host"))
two_words (h ∷ []) = err (malformed (ascii "missing target port"))
two_words (h ∷ p ∷ []) = ok (h, p)
two_words (h ∷ p ∷ q ∷ ws) = err (malformed (ascii "trailing CONNECT tokens"))

unfoldable pub parse_tunnel : List Text → Result FrameError TunnelRequest
parse_tunnel [] = err (malformed (ascii "empty tunnel frame"))
parse_tunnel (first ∷ rest) = do
  target ← ok_or (strip_prefix (ascii "CONNECT ") first) (malformed (ascii "expected CONNECT verb"))
  (host, word) ← two_words (split_whitespace target)
  port ← ok_or (parse_unsigned 65535 word) (malformed (ascii "target port not a u16"))
  _ ←
      ensure (not (is_empty host || ltb 255 (length host)))
        (malformed (ascii "target host length out of range"))
  ok record {
    host = host;
    port = port;
    tunnel_id = non_empty (header (parse_headers rest) (ascii "tunnel-id"));
  }

unfoldable pub encode_associate : AssociateRequest → Text
encode_associate a =
    line (ascii "ASSOCIATE " ++ to_decimal a.session_id)
    ++ (optional_line (ascii "assoc-id: ") a.assoc_id ++ line [])

unfoldable pub parse_associate : List Text → Result FrameError AssociateRequest
parse_associate [] = err (malformed (ascii "empty associate frame"))
parse_associate (first ∷ rest) = do
  id ← ok_or (strip_prefix (ascii "ASSOCIATE ") first) (malformed (ascii "expected ASSOCIATE verb"))
  session_id ←
      ok_or (parse_unsigned (2 ^ 32 - 1) (trim id))
        (malformed (ascii "associate session id not a u32"))
  ok record {
    session_id = session_id;
    assoc_id = non_empty (header (parse_headers rest) (ascii "assoc-id"));
  }

unfoldable pub encode_dissociate : DissociateRequest → Text
encode_dissociate d = line (ascii "DISSOCIATE " ++ to_decimal d.session_id) ++ line []

unfoldable pub parse_dissociate : List Text → Result FrameError DissociateRequest
parse_dissociate [] = err (malformed (ascii "empty dissociate frame"))
parse_dissociate (first ∷ rest) = do
  id ←
      ok_or (strip_prefix (ascii "DISSOCIATE ") first)
        (malformed (ascii "expected DISSOCIATE verb"))
  session_id ←
      ok_or (parse_unsigned (2 ^ 32 - 1) (trim id))
        (malformed (ascii "dissociate session id not a u32"))
  ok record { session_id = session_id }

unfoldable pub encode_reply : Reply → Text
encode_reply reply_ok = line (ascii "OK") ++ line []
encode_reply (reply_err code) = line (ascii "ERR " ++ code) ++ line []

abbrev pub first_line : List Text → Text
first_line [] = []
first_line (l ∷ ls) = l

unfoldable pub parse_reply : List Text → Result FrameError Reply
parse_reply lines =
    let first = trim (first_line lines) in
    if list_beq first (ascii "OK")
    then ok reply_ok
    else (if list_beq first (ascii "ERR")
        then ok (reply_err [])
        else (elim (strip_prefix (ascii "ERR ") first) [
          | some code ↦ ok (reply_err (trim code))
          | none ↦ err (malformed (ascii "expected OK or ERR reply"))
        ]))
