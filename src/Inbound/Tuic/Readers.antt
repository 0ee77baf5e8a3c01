-- ===== src/Inbound/Tuic/Readers.antt =====
-- The two readers of addresses, from a stream and from a buffer.
use rove.Base.{ℕ, zero, suc, ◌+◌, ◌≤◌, ◌<◌}
use rove.Base.{◌≡◌, refl, sym, ap, ◌∙◌, inl, inr, true, false, not, List, [], ◌∷◌, arith}
use rove.Base.{ltb, ◌==◌, if◌then◌else◌, Bool-cases}
use rove.Base.{length, take, drop, length-drop}
use rove.Base.Bytes.{ascii, from_be_bytes, byte_at}
use rove.Base.Eq.{nat_eq, list_eq}
use rove.Base.Bytes.{ascii}
use rove.Base.Text.{Text}
use rove.Base.Result.{Result, ok, err, ◌>>=◌, ensure}
use rove.Base.Bytes.{u16_at}
use rove.Base.Text.Utf8.{Utf8}
use rove.Inbound.Tuic.{
  Address, no_address, domain, v4, v6, TuicError, bad, read_exact, read_u16, read_domain, read_v4,
  read_v6, read_address, parse_address, parse_domain, parse_v4, parse_v6,
}

-- Both refuse, or both give the same address and leave the same bytes.
abbrev pub Agree :
    List ℕ → Result TuicError (Address × ℕ) → Result TuicError (Address × List ℕ) → Type 0
Agree buf (ok (a, used)) (ok (b, left)) = (a ≡ b) × (drop used buf ≡ left)
Agree buf (ok x) (err e) = ⊥
Agree buf (err e) (ok x) = ⊥
Agree buf (err e) (err f) = Unit

two_bytes :
    (s : List ℕ) (k m : ℕ)
    → m ≡ k + 1
    → m < length s
    → take 2 (drop k s) ≡ byte_at s k ∷ byte_at s m ∷ []
two_bytes [] k m e h = absurd (omega arith)
two_bytes (a ∷ []) k m e h = absurd (omega arith)
two_bytes (a ∷ b ∷ s) zero m e h =
    let next : 1 ≡ m = omega arith in ap (λ i. a ∷ byte_at (a ∷ b ∷ s) i ∷ []) next
two_bytes (a ∷ b ∷ s) (suc k) zero e h = absurd (omega arith)
two_bytes (a ∷ b ∷ s) (suc k) (suc m) e h = two_bytes (b ∷ s) k m (omega arith) (omega arith)

drop-drop : (s : List ℕ) (j k n : ℕ) → n ≡ j + k → drop n s ≡ drop k (drop j s)
drop-drop s zero k n h = ap (λ m. drop m s) (omega arith)
drop-drop [] (suc j) zero zero h = refl
drop-drop [] (suc j) (suc k) zero h = refl
drop-drop [] (suc j) zero (suc n) h = refl
drop-drop [] (suc j) (suc k) (suc n) h = refl
drop-drop (x ∷ s) (suc j) k zero h = absurd (omega arith)
drop-drop (x ∷ s) (suc j) k (suc n) h = drop-drop s j k n (omega arith)

-- A field of `k` bytes and a port, read from a stream.
read_field : (List ℕ → ℕ → Address) → ℕ → List ℕ → Result TuicError (Address × List ℕ)
read_field make k s =
    read_exact k s >>= (λ (d, rest). read_u16 rest >>= (λ (port, left). ok (make d port, left)))

parse_field : (List ℕ → ℕ → Address) → ℕ → ℕ → Text → List ℕ → Result TuicError (Address × ℕ)
parse_field make j k error buf =
    ensure (not (ltb (length buf) (j + k + 2))) (bad error)
    >>= (λ u. ok (make (take k (drop j buf)) (u16_at buf (j + k)), j + k + 2))

parse_field-read_field :
    (make : List ℕ → ℕ → Address) (j k : ℕ) (error : Text) (buf : List ℕ)
    → j ≤ length buf
    → Agree buf (parse_field make j k error buf) (read_field make k (drop j buf))
unfolding parse_field read_field read_exact read_u16 u16_at
parse_field-read_field make j k error buf inside =
    elim (Bool-cases (ltb (length buf) (j + k + 2))) [
      | inl short ↦ elim (Bool-cases (ltb (length (drop j buf)) k)) [
        | inl none_left ↦ rw (short, none_left, Agree) tt
        | inr field ↦
            let no_port : ltb (length (drop k (drop j buf))) 2 ≡ true =
              ground (arith, length-drop k (drop j buf), length-drop j buf) in
            rw (short, field, no_port, Agree) tt
      ]
      | inr long ↦
          let field : ltb (length (drop j buf)) k ≡ false = ground (arith, length-drop j buf) in
          let port : ltb (length (drop k (drop j buf))) 2 ≡ false =
            ground (arith, length-drop k (drop j buf), length-drop j buf) in
          rw (long, field, port, Agree)
            (
              ap (λ p. make (take k (drop j buf)) (from_be_bytes p))
                  (sym (two_bytes buf (j + k) (j + k + 1) refl (ground arith))
                    ∙ ap (take 2) (drop-drop buf j k (j + k) refl)),
              drop-drop buf (j + k) 2 (j + k + 2) refl
                  ∙ ap (drop 2) (drop-drop buf j k (j + k) refl),
            )
    ]

module _ (u : Utf8) where
  make_domain : List ℕ → ℕ → Address
  make_domain d port = domain (u.from_utf8_lossy d) port

  make_v4 : List ℕ → ℕ → Address
  make_v4 a port = v4 (from_be_bytes a) port

  read_head : (b : ℕ) (s : List ℕ) → read_exact 1 (b ∷ s) ≡ ok (b ∷ [], s)
  unfolding read_exact
  read_head b s = ground arith

  domain-Agree : (t : ℕ) (s : List ℕ) → Agree (t ∷ s) (parse_domain u (t ∷ s)) (read_domain u s)
  unfolding parse_domain read_domain parse_field read_field make_domain
  domain-Agree t [] = unfold read_exact in tt
  domain-Agree t (l ∷ s) = rw (read_head l s) (
      parse_field-read_field make_domain 2 l (ascii "tuic: address domain truncated") (t ∷ l ∷ s)
        (omega arith))

  v4-Agree : (t : ℕ) (s : List ℕ) → Agree (t ∷ s) (parse_v4 u (t ∷ s)) (read_v4 u s)
  unfolding parse_v4 read_v4 parse_field read_field make_v4
  v4-Agree t s =
      parse_field-read_field make_v4 1 4 (ascii "tuic: address v4 truncated") (t ∷ s) (omega arith)

  v6-Agree : (t : ℕ) (s : List ℕ) → Agree (t ∷ s) (parse_v6 u (t ∷ s)) (read_v6 u s)
  unfolding parse_v6 read_v6 parse_field read_field
  v6-Agree t s =
      parse_field-read_field v6 1 16 (ascii "tuic: address v6 truncated") (t ∷ s) (omega arith)

  -- Of any bytes, the reader of a stream and the reader of a buffer take the same address and leave
  -- the same bytes, or both refuse.
  pub parse_address-read_address :
      (buf : List ℕ) → Agree buf (parse_address u buf) (read_address u buf)
  unfolding parse_address read_address
  parse_address-read_address [] = unfold read_exact in tt
  parse_address-read_address (t ∷ s) = rw (read_head t s) (by_type t s)
    where
      by_type :
          (t : ℕ) (s : List ℕ)
          → Agree
              (t ∷ s)
              (if t == 0xff
                then ok (no_address, 1)
                else (if t == 0
                    then parse_domain u (t ∷ s)
                    else (if t == 1
                        then parse_v4 u (t ∷ s)
                        else (if t == 2
                            then parse_v6 u (t ∷ s)
                            else err (bad (ascii "tuic: bad address type"))))))
              (if t == 0xff
                then ok (no_address, s)
                else (if t == 0
                    then read_domain u s
                    else (if t == 1
                        then read_v4 u s
                        else (if t == 2
                            then read_v6 u s
                            else err (bad (ascii "tuic: bad address type"))))))
      by_type t s = elim (Bool-cases (t == 0xff)) [
        | inl a ↦ rw (a, Agree) (refl, refl)
        | inr a ↦ elim (Bool-cases (t == 0)) [
          | inl b ↦ rw (a, b) (domain-Agree t s)
          | inr b ↦ elim (Bool-cases (t == 1)) [
            | inl c ↦ rw (a, b, c) (v4-Agree t s)
            | inr c ↦ elim (Bool-cases (t == 2)) [
              | inl d ↦ rw (a, b, c, d) (v6-Agree t s)
              | inr d ↦ rw (a, b, c, d, Agree) tt
            ]
          ]
        ]
      ]
