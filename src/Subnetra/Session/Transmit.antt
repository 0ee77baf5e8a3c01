-- ===== src/Subnetra/Session/Transmit.antt =====
-- What a transmit session sends.
use rove.Base.{ℕ, zero, suc, ◌+◌, ◌-◌, ◌^◌, ◌≤◌, ◌<◌, min}
use rove.Base.{◌≡◌, ◌≢◌, refl, sym, ap, ◌∙◌, List, [], ◌∷◌, map, arith}
use rove.Base.{length, drop, All, drop-append_length, take-append_length, IsDistinct}
use rove.Base.{take}
use rove.Base.Bytes.{length-to_le_bytes, from_le_bytes, to_le_bytes, from_le_bytes-to_le_bytes}
use rove.Subnetra.Crypto.{Primitives, AeadKey, header_len, nonce, seal}
use rove.Subnetra.Wire.RoundTrip.{sealed_parts}
use rove.Subnetra.Session.{TxSession, seal_next}

nonce_injective : (m n : ℕ) → m < 2 ^ 64 → n < 2 ^ 64 → nonce m ≡ nonce n → m ≡ n
unfolding nonce
nonce_injective m n hm hn e =
    sym (from_le_bytes-to_le_bytes 8 m hm)
    ∙ ap from_le_bytes (
        sym (take-append_length 8 (to_le_bytes 8 m) _ (length-to_le_bytes 8 m))
        ∙ ap (take 8) e
        ∙ take-append_length 8 (to_le_bytes 8 n) _ (length-to_le_bytes 8 n))
    ∙ from_le_bytes-to_le_bytes 8 n hn

-- So many numbers from the first on.
abbrev pub count_from : ℕ → ℕ → List ℕ
count_from n zero = []
count_from n (suc k) = n ∷ count_from (suc n) k

abbrev pub max_seq : ℕ
max_seq = 2 ^ 64 - 1

-- The same, but none is above the largest u64.
abbrev pub count_up_to_max : ℕ → ℕ → List ℕ
count_up_to_max n k = map (λ m. min m max_seq) (count_from n k)

module _ (c : Primitives) where
  -- The datagrams of a run of messages, each with its flags.
  unfoldable pub sent : TxSession → List (ℕ × List ℕ) → List (List ℕ)
  unfolding seal_next
  sent s [] = []
  sent s ((flags, text) ∷ rest) =
      (seal_next c s flags text).1 ∷ sent (seal_next c s flags text).0 rest

  -- What follows the headers of the datagrams.
  abbrev pub bodies : TxSession → List (ℕ × List ℕ) → List (List ℕ)
  bodies s messages = map (drop header_len) (sent s messages)

  -- The texts of the messages, sealed by the AEAD itself under one key and the nonces in order.
  abbrev pub sealed_under : AeadKey → List (List ℕ) → List (ℕ × List ℕ) → List (List ℕ)
  sealed_under key (n ∷ nonces) ((flags, text) ∷ rest) =
      c.aead_seal key.session_key n text ∷ sealed_under key nonces rest
  sealed_under key (n ∷ nonces) [] = []
  sealed_under key [] rest = []

  body_of :
      (s : TxSession) (flags : ℕ) (text : List ℕ)
      → drop header_len (seal_next c s flags text).1
        ≡ c.aead_seal s.key.session_key (nonce s.next_seq) text
  unfolding seal_next seal
  body_of s flags text =
      let (front, shape, size, whole) =
        sealed_parts c s.tx_link_key s.key s.local_id s.epoch s.next_seq flags text s.obfuscate in
      ap (drop header_len) whole ∙ drop-append_length 20 front (seal c s.key s.next_seq text) size

  -- The session at a number that may be above the largest u64.
  abbrev at : TxSession → ℕ → TxSession
  at s n = record s { next_seq = min n max_seq }

  next_at :
      (s : TxSession) (n flags : ℕ) (text : List ℕ)
      → (seal_next c (at s n) flags text).0 ≡ at s (suc n)
  unfolding seal_next
  next_at s n flags text = ap (λ m. record s { next_seq = m }) (omega arith)

  unrolled :
      (s : TxSession) (messages : List (ℕ × List ℕ)) (n : ℕ)
      → bodies (at s n) messages
        ≡ sealed_under s.key (map nonce (count_up_to_max n (length messages))) messages
  unfolding sent
  unrolled s [] n = refl
  unrolled s ((flags, text) ∷ rest) n =
      ap (λ b. b ∷ bodies (seal_next c (at s n) flags text).0 rest) (body_of (at s n) flags text)
      ∙ ap (λ bs. c.aead_seal s.key.session_key (nonce (min n max_seq)) text ∷ bs)
          (ap (λ t. bodies t rest) (next_at s n flags text) ∙ unrolled s rest (suc n))

  -- From a counter that is a u64, the bodies of the datagrams of any run of messages are the texts
  -- sealed by the AEAD under the session's one key, with the nonces of the numbers from the counter
  -- on; at the largest u64 they stop, and all later messages are sealed with its nonce.
  pub bodies-sealed_under :
      (s : TxSession) (messages : List (ℕ × List ℕ))
      → s.next_seq < 2 ^ 64
      → bodies s messages
        ≡ sealed_under s.key (map nonce (count_up_to_max s.next_seq (length messages))) messages
  bodies-sealed_under s messages fits =
      ap (λ m. bodies (record s { next_seq = m }) messages) (omega arith)
      ∙ unrolled s messages s.next_seq

  count_up_to_max-count_from : (n k : ℕ) → n + k ≤ 2 ^ 64 → count_up_to_max n k ≡ count_from n k
  count_up_to_max-count_from n zero room = refl
  count_up_to_max-count_from n (suc k) room =
      ap (λ m. m ∷ count_up_to_max (suc n) k) (omega arith)
      ∙ ap (λ ms. n ∷ ms) (count_up_to_max-count_from (suc n) k (omega arith))

  nonces-differ :
      (m n k : ℕ) → m < n → n + k ≤ 2 ^ 64 → All (λ b. nonce m ≢ b) (map nonce (count_from n k))
  nonces-differ m n zero h room = tt
  nonces-differ m n (suc k) h room = (
    λ e. let same = nonce_injective m n (omega arith) (omega arith) e in absurd (omega arith),
    nonces-differ m (suc n) k (omega arith) (omega arith),
  )

  count_from-IsDistinct : (n k : ℕ) → n + k ≤ 2 ^ 64 → IsDistinct (map nonce (count_from n k))
  count_from-IsDistinct n zero room = tt
  count_from-IsDistinct n (suc k) room = (
    nonces-differ n (suc n) k (omega arith) (omega arith),
    count_from-IsDistinct (suc n) k (omega arith),
  )

  -- From a counter that is a u64, and with no number above the largest, no nonce is used twice under
  -- one key: the bodies of the datagrams are the texts sealed by the AEAD under the session's one key
  -- with the nonces of the numbers from the counter on, and no two of these nonces are the same bytes.
  pub bodies-IsDistinct :
      (s : TxSession) (messages : List (ℕ × List ℕ))
      → s.next_seq + length messages ≤ 2 ^ 64
      → s.next_seq < 2 ^ 64
      → (bodies s messages
          ≡ sealed_under s.key (map nonce (count_from s.next_seq (length messages))) messages)
        × IsDistinct (map nonce (count_from s.next_seq (length messages)))
  bodies-IsDistinct s messages room fits = (
    bodies-sealed_under s messages fits
        ∙ ap (λ ns. sealed_under s.key (map nonce ns) messages)
            (count_up_to_max-count_from s.next_seq (length messages) room),
    count_from-IsDistinct s.next_seq (length messages) room,
  )
