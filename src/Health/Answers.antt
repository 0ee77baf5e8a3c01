-- ===== src/Health/Answers.antt =====
-- What a client of the health endpoint sees.
use rove.Base.{
  ℕ, zero, suc, ◌+◌, ◌-◌, ◌*◌, ◌/◌, ◌%◌, ◌^◌, ◌≤◌, ◌<◌, min, max, bit_and, bit_or, bit_xor,
}
use rove.Base.{
  ◌≡◌, refl, sym, ap, ◌∙◌, ◌≢◌, ◌↔◌, ◌⊎◌, inl, inr, Bool, true, false, not, ◌&&◌, ◌||◌, Option,
  none, some, List, [], ◌∷◌, ◌++◌, map, arith,
}
use rove.Base.{
  ltb, leb, ◌==◌, if◌then◌else◌, ltb→lt, lt→ltb, leb→le, le→leb, le→ltb_false, ==_iff, Bool-cases,
  Option-cases,
}
use rove.Base.{
  drop-append_add, All-take, All-append, replicate, length, get_elem?, set, take, drop, any, all,
  All, length-append, length-take, length-drop, take-append_length, drop-append_length,
  take-append-drop, any-append, length-set, get_elem?-set_self, get_elem?-set_ne,
}
use rove.Base.Bytes.{ascii}
use rove.Base.Text.{Text, split_on, starts_with, to_ascii_lowercase}
use rove.Base.Text.Utf8.{Utf8, IsAscii}
use rove.Base.Text.Words.{split_whitespace}
use rove.Base.Eq.{same, nat_eq, list_eq}
use rove.Base.Decimal.{to_decimal}
use rove.Util.{http_2xx, second_word, find_sub, line_end, position}
use rove.Health.{HealthSnapshot}
use rove.Health.Server.{respond, answer, serve_parts, first_word}

abbrev ok_line : Text
ok_line = ascii "HTTP/1.1 200 OK"

abbrev unavailable_line : Text
unavailable_line = ascii "HTTP/1.1 503 Service Unavailable"

-- The end of the first line, if the text is shorter than the needle or not.
abbrev end_at : ℕ → ℕ → Bool → ℕ
end_at n m is_short = elim (if is_short then none else some n) [ none ↦ m | some i ↦ i ]

abbrev is_success : Text → Bool
is_success line = elim (second_word (split_whitespace line)) [
  | none ↦ false
  | some code ↦ starts_with (ascii "2") code
]

ends_at_ok : (rest : Text) → line_end (ok_line ++ 13 ∷ 10 ∷ rest) ≡ 15
unfolding line_end find_sub position starts_with
ends_at_ok rest =
    ap (end_at 15 (length (ok_line ++ 13 ∷ 10 ∷ rest)))
      (le→ltb_false (length (ok_line ++ 13 ∷ 10 ∷ rest)) 2 (omega arith))

ends_at_unavailable : (rest : Text) → line_end (unavailable_line ++ 13 ∷ 10 ∷ rest) ≡ 32
unfolding line_end find_sub position starts_with
ends_at_unavailable rest =
    ap (end_at 32 (length (unavailable_line ++ 13 ∷ 10 ∷ rest)))
      (le→ltb_false (length (unavailable_line ++ 13 ∷ 10 ∷ rest)) 2 (omega arith))

all-IsAscii : (s : Text) → all (λ c. ltb c 128) s ≡ true → All IsAscii s
all-IsAscii [] h = tt
all-IsAscii (c ∷ s) h = (ground arith, all-IsAscii s (ground arith))

module _ (u : Utf8) where
  read_back : (s : Text) → all (λ c. ltb c 128) s ≡ true → u.from_utf8_lossy s ≡ s
  read_back s h = u.from_utf8_lossy-valid s (u.valid-ascii s (all-IsAscii s h))

  http_2xx-ok : (rest : Text) → http_2xx u (ok_line ++ 13 ∷ 10 ∷ rest) ≡ true
  unfolding http_2xx split_whitespace starts_with rove.Base.Text.strip_space
  http_2xx-ok rest =
      ap (λ n. is_success (u.from_utf8_lossy (take n (ok_line ++ 13 ∷ 10 ∷ rest))))
        (ends_at_ok rest)
      ∙ ap is_success (read_back ok_line refl)

  http_2xx-unavailable : (rest : Text) → http_2xx u (unavailable_line ++ 13 ∷ 10 ∷ rest) ≡ false
  unfolding http_2xx split_whitespace starts_with rove.Base.Text.strip_space
  http_2xx-unavailable rest =
      ap (λ n. is_success (u.from_utf8_lossy (take n (unavailable_line ++ 13 ∷ 10 ∷ rest))))
        (ends_at_unavailable rest)
      ∙ ap is_success (read_back unavailable_line refl)

  answer-readyz :
      (to_json : HealthSnapshot → Text) (snapshot : HealthSnapshot) (head_only ready : Bool)
      → snapshot.is_ready ≡ ready
      → http_2xx u (respond (answer to_json snapshot (ascii "/readyz") head_only)) ≡ ready
  unfolding answer respond to_decimal rove.Base.Decimal.push_digits
  answer-readyz to_json snapshot head_only true h = rw h (http_2xx-ok _)
  answer-readyz to_json snapshot head_only false h = rw h (http_2xx-unavailable _)

  answer-healthz :
      (to_json : HealthSnapshot → Text) (snapshot : HealthSnapshot) (head_only : Bool)
      → http_2xx u (respond (answer to_json snapshot (ascii "/healthz") head_only)) ≡ true
  unfolding answer respond to_decimal rove.Base.Decimal.push_digits
  answer-healthz to_json snapshot head_only = http_2xx-ok _

  answered :
      (to_json : HealthSnapshot → Text) (snapshot : HealthSnapshot) (m t : Text) (ws : List Text)
      → (to_ascii_lowercase m ≡ ascii "get") ⊎ (to_ascii_lowercase m ≡ ascii "head")
      → (head_only : Bool) × (serve_parts to_json snapshot (m ∷ t ∷ ws)
          ≡ answer to_json snapshot (first_word (split_on b'?' t)) head_only)
  unfolding serve_parts
  answered to_json snapshot m t ws (inl h) = (false, rw h refl)
  answered to_json snapshot m t ws (inr h) = (true, rw h refl)

  -- Asked with GET or HEAD, in any case of the letters, for /readyz, with a query or without, the
  -- endpoint answers with a 2xx status just when the node is ready, as the reader of status lines in
  -- src/util.rs takes it.
  pub serve_parts-http_2xx :
      (to_json : HealthSnapshot → Text) (snapshot : HealthSnapshot) (m t : Text) (ws : List Text)
      → (to_ascii_lowercase m ≡ ascii "get") ⊎ (to_ascii_lowercase m ≡ ascii "head")
      → first_word (split_on b'?' t) ≡ ascii "/readyz"
      → http_2xx u (respond (serve_parts to_json snapshot (m ∷ t ∷ ws))) ≡ snapshot.is_ready
  serve_parts-http_2xx to_json snapshot m t ws h e =
      let (head_only, same) = answered to_json snapshot m t ws h in
      rw (same, e) (answer-readyz to_json snapshot head_only snapshot.is_ready refl)

  -- Asked for /healthz in the same way, it always answers with one.
  serve_parts-healthz :
      (to_json : HealthSnapshot → Text) (snapshot : HealthSnapshot) (m t : Text) (ws : List Text)
      → (to_ascii_lowercase m ≡ ascii "get") ⊎ (to_ascii_lowercase m ≡ ascii "head")
      → first_word (split_on b'?' t) ≡ ascii "/healthz"
      → http_2xx u (respond (serve_parts to_json snapshot (m ∷ t ∷ ws))) ≡ true
  serve_parts-healthz to_json snapshot m t ws h e =
      let (head_only, same) = answered to_json snapshot m t ws h in
      rw (same, e) (answer-healthz to_json snapshot head_only)
