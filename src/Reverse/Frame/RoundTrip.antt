-- ===== src/Reverse/Frame/RoundTrip.antt =====
-- Requests written to a stream and read back from it.
use rove.Base.{◌≤◌}
use rove.Base.{
  ◌≡◌, refl, ap, ◌∙◌, ◌≢◌, true, false, not, ◌||◌, Option, none, some, List, [], ◌∷◌, ◌++◌, arith,
}
use rove.Base.{ltb, le→ltb_false}
use rove.Base.{All-append, length, All}
use rove.Base.Bytes.{ascii}
use rove.Base.Eq.{nat_eq, list_eq}
use rove.Base.Bytes.{ascii}
use rove.Base.Text.{Text, is_empty, to_ascii_lowercase, trim, strip_prefix, split_once}
use rove.Base.Result.{ok}
use rove.Base.Assoc.{find}
use mathlib.Core.List.{append-nil}
use mathlib.Core.Path.{subst}
use rove.Base.Decimal.{to_decimal, to_decimal-IsDigit, to_decimal-cons, parse_unsigned-to_decimal}
use rove.Base.Text.Utf8.{Utf8}
use rove.Base.Text.Words.{Spaceless, split_whitespace, split_whitespace-two, All-IsDigit-Spaceless}
use rove.Reverse.Lines.{parse_headers, header, read_frame}
use rove.Reverse.Lines.Block.{block, IsInner, read_frame-block}
use rove.Reverse.Frame.{line, TunnelRequest, encode_tunnel, parse_tunnel, two_words, non_empty}
use rove.Reverse.Frame.Blocks.{
  line-block, optional_lines, optional_line-block, Spaceless-IsInner, IsDigit-IsAscii, trim-space,
  IsOptional, IsSent, block-valid, All-IsSent-IsLine, append-IsSent, optional_lines-IsSent,
  IsPlain-IsSent,
}

strip_prefix-append : (p s : Text) → strip_prefix p (p ++ s) ≡ some s
unfolding strip_prefix
strip_prefix-append [] s = refl
strip_prefix-append (c ∷ p) s = ground (arith, strip_prefix-append p s)

-- A request that its peer understands: the host is one word of at most 255 bytes.
pub record Tunnel (u : Utf8) (t : TunnelRequest) : Type 0 where
  pub filled : t.host ≢ []
  pub spaceless : Spaceless t.host
  pub short : length t.host ≤ 255
  pub encoded : u.valid t.host ≡ true
  pub port : t.port ≤ 65535
  pub tunnel_id : IsOptional u t.tunnel_id

non_empty-filled : (v : Text) → v ≢ [] → non_empty (some v) ≡ some v
non_empty-filled [] h = absurd (h refl)
non_empty-filled (c ∷ v) h = refl

module _ (u : Utf8) where
  abbrev target : TunnelRequest → Text
  target t = t.host ++ b' ' ∷ to_decimal t.port

  abbrev tunnel_lines : TunnelRequest → List Text
  tunnel_lines t = optional_lines (ascii "tunnel-id: ") t.tunnel_id

  encode_tunnel-block :
      (t : TunnelRequest)
      → encode_tunnel t ≡ block ((ascii "CONNECT " ++ target t) ∷ tunnel_lines t)
  unfolding encode_tunnel block
  encode_tunnel-block t =
      ap (λ more. line (ascii "CONNECT " ++ target t) ++ more)
        (optional_line-block (ascii "tunnel-id: ") t.tunnel_id []
          ∙ ap block (append-nil (tunnel_lines t)))
      ∙ line-block (ascii "CONNECT " ++ target t) (tunnel_lines t)

  parse_id :
      (o : Option Text)
      → IsOptional u o
      → non_empty
          (header (parse_headers (optional_lines (ascii "tunnel-id: ") o)) (ascii "tunnel-id"))
        ≡ o
  unfolding parse_headers header split_once find to_ascii_lowercase trim
  parse_id none h = refl
  parse_id (some v) h = rw (trim-space v, h.trimmed) (non_empty-filled v h.filled)

  two_parts :
      (t : TunnelRequest)
      → Tunnel u t
      → two_words (split_whitespace (target t)) ≡ ok (t.host, to_decimal t.port)
  two_parts t h =
      let (c, rest, e) = to_decimal-cons t.port in
      ap two_words (
        split_whitespace-two t.host (to_decimal t.port) h.spaceless
          (All-IsDigit-Spaceless (to_decimal t.port) (to_decimal-IsDigit t.port)) h.filled
          (λ k. cc))

  accepted_host :
      (t : TunnelRequest) → Tunnel u t → not (is_empty t.host || ltb 255 (length t.host)) ≡ true
  accepted_host t h = rw (filled t.host h.filled, le→ltb_false 255 (length t.host) h.short) refl
    where
      filled : (s : Text) → s ≢ [] → is_empty s ≡ false
      filled [] k = absurd (k refl)
      filled (c ∷ s) k = refl

  parse_tunnel-lines :
      (t : TunnelRequest)
      → Tunnel u t
      → parse_tunnel ((ascii "CONNECT " ++ target t) ∷ tunnel_lines t) ≡ ok t
  unfolding parse_tunnel
  parse_tunnel-lines t h =
      rw
        (
          strip_prefix-append (ascii "CONNECT ") (target t),
          two_parts t h,
          parse_unsigned-to_decimal 65535 t.port h.port (omega arith),
          accepted_host t h,
          parse_id t.tunnel_id h.tunnel_id,
        )
        refl

  target-valid : (t : TunnelRequest) → Tunnel u t → u.valid (target t) ≡ true
  target-valid t h = u.valid-append t.host (b' ' ∷ to_decimal t.port) h.encoded (
      u.valid-ascii (b' ' ∷ to_decimal t.port)
        (omega arith, IsDigit-IsAscii (to_decimal t.port) (to_decimal-IsDigit t.port)))

  target-IsInner : (t : TunnelRequest) → Tunnel u t → All IsInner (target t)
  target-IsInner t h =
      All-append IsInner t.host (b' ' ∷ to_decimal t.port) (Spaceless-IsInner t.host h.spaceless) (
        (refl, refl),
        Spaceless-IsInner (to_decimal t.port)
            (All-IsDigit-Spaceless (to_decimal t.port) (to_decimal-IsDigit t.port)),
      )

  -- A tunnel request of at most 4096 bytes whose host is one word of at most 255 bytes, and whose
  -- correlation id, if it has one, is a trimmed value without line breaks, is read from a stream as
  -- the request that was sent; the bytes behind it stay in the stream.
  pub parse_tunnel-read_frame :
      (t : TunnelRequest) (rest : Text)
      → Tunnel u t
      → length (encode_tunnel t) ≤ 4096
      → (lines : List Text) × (read_frame u (encode_tunnel t ++ rest) ≡ ok (lines, rest))
        × (parse_tunnel lines ≡ ok t)
  parse_tunnel-read_frame t rest h room =
      let first = ascii "CONNECT " ++ target t in
      let sent : All (IsSent u) (first ∷ tunnel_lines t) = (
        append-IsSent u (ascii "CONNECT ") (target t) (IsPlain-IsSent u _ _ (ground arith))
            (target-IsInner t h) (target-valid t h),
        optional_lines-IsSent u (ascii "tunnel-id: ") t.tunnel_id
            (IsPlain-IsSent u _ _ (ground arith)) h.tunnel_id,
      ) in
      (
        first ∷ tunnel_lines t,
        ap (λ b. read_frame u (b ++ rest)) (encode_tunnel-block t)
            ∙ read_frame-block u first (tunnel_lines t) rest
                (All-IsSent-IsLine u (first ∷ tunnel_lines t) sent)
                (block-valid u (first ∷ tunnel_lines t) sent)
                (subst (λ b. length b ≤ 4096) (encode_tunnel-block t) room),
        parse_tunnel-lines t h,
      )
