-- ===== src/Subnetra/Crypto.antt =====
-- The cryptographic derivations of the overlay, src/subnetra/crypto.rs. BLAKE2b in keyed mode and
-- ChaCha20-Poly1305 are third-party code: the operations and the documented behaviour that the
-- source relies on are the fields of `Primitives`.
use rove.Base.{ℕ, ◌+◌}
use rove.Base.{◌≡◌, Option, none, some, List, [], ◌∷◌, ◌++◌, arith}
use rove.Base.{ltb, if◌then◌else◌}
use rove.Base.{All-take, length, take, All, length-take}
use rove.Base.Bytes.{ascii, IsByte, to_le_bytes, to_be_bytes}

abbrev pub key_len : ℕ
key_len = 32

abbrev pub tag_len : ℕ
tag_len = 16

abbrev pub header_len : ℕ
header_len = 20

pub record Primitives : Type 0 where
  -- `Blake2bMac256` over a key and the parts of the message, in order
  pub blake2b : List ℕ → List (List ℕ) → List ℕ
  -- `seal_in_place_append_tag` and `open_in_place` under a key and a nonce, with no associated data
  pub aead_seal : List ℕ → List ℕ → List ℕ → List ℕ
  pub aead_open : List ℕ → List ℕ → List ℕ → Option (List ℕ)
  pub length-blake2b : (key : List ℕ) (parts : List (List ℕ)) → length (blake2b key parts) ≡ 32
  pub blake2b-IsByte : (key : List ℕ) (parts : List (List ℕ)) → All IsByte (blake2b key parts)
  pub length-aead_seal :
      (key nonce text : List ℕ) → length (aead_seal key nonce text) ≡ length text + 16
  pub open-seal :
      (key nonce text : List ℕ) → aead_open key nonce (aead_seal key nonce text) ≡ some text

-- A session AEAD key is bound to one session key; its key schedule has no other effect.
pub record AeadKey : Type 0 where
  pub session_key : List ℕ

-- The 96-bit nonce of a sequence number.
unfoldable pub nonce : ℕ → List ℕ
nonce seq = to_le_bytes 8 seq ++ 0 ∷ 0 ∷ 0 ∷ 0 ∷ []

module _ (c : Primitives) where
  unfoldable pub blake2b_keyed : List ℕ → List (List ℕ) → List ℕ
  blake2b_keyed key parts = c.blake2b key parts

  -- The ids are u16 on the wire and enter the KDF as u32, most significant byte first.
  unfoldable pub link_key : List ℕ → ℕ → ℕ → List ℕ
  unfolding blake2b_keyed
  link_key psk from_id to_id =
      blake2b_keyed psk
        (ascii "subnetra-v1-link" ∷ to_be_bytes 4 from_id ∷ to_be_bytes 4 to_id ∷ [])

  unfoldable pub session_key : List ℕ → ℕ → List ℕ
  unfolding blake2b_keyed
  session_key link epoch =
      blake2b_keyed link (ascii "subnetra-v1-session" ∷ to_be_bytes 8 epoch ∷ [])

  unfoldable pub obfuscation_pad : List ℕ → List ℕ → List ℕ
  unfolding blake2b_keyed
  obfuscation_pad link tag =
      take header_len (blake2b_keyed link (ascii "subnetra-v1-obfs" ∷ tag ∷ []))

  unfoldable pub seal : AeadKey → ℕ → List ℕ → List ℕ
  seal key seq plaintext = c.aead_seal key.session_key (nonce seq) plaintext

  -- `Err` of the primitive is `none`, as is a body with no room for a tag.
  unfoldable pub open_body : AeadKey → ℕ → List ℕ → Option (List ℕ)
  open_body key seq body =
      if ltb (length body) tag_len then none else c.aead_open key.session_key (nonce seq) body

  pub open_body-seal :
      (key : AeadKey) (seq : ℕ) (text : List ℕ) → open_body key seq (seal key seq text) ≡ some text
  unfolding open_body seal
  open_body-seal key seq text = ground (
    arith,
    c.length-aead_seal key.session_key (nonce seq) text,
    c.open-seal key.session_key (nonce seq) text,
  )

  pub length-seal :
      (key : AeadKey) (seq : ℕ) (text : List ℕ) → length (seal key seq text) ≡ length text + 16
  unfolding seal
  length-seal key seq text = c.length-aead_seal key.session_key (nonce seq) text

  pub length-obfuscation_pad : (link tag : List ℕ) → length (obfuscation_pad link tag) ≡ 20
  unfolding obfuscation_pad
  length-obfuscation_pad link tag =
      let digest = c.blake2b link (ascii "subnetra-v1-obfs" ∷ tag ∷ []) in
      omega
        (arith, length-take 20 digest, c.length-blake2b link (ascii "subnetra-v1-obfs" ∷ tag ∷ []))

  pub obfuscation_pad-IsByte : (link tag : List ℕ) → All IsByte (obfuscation_pad link tag)
  unfolding obfuscation_pad
  obfuscation_pad-IsByte link tag =
      All-take IsByte 20 _ (c.blake2b-IsByte link (ascii "subnetra-v1-obfs" ∷ tag ∷ []))
