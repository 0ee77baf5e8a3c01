-- ===== src/Subnetra/Wire/RoundTrip.antt =====
-- Headers and sealed datagrams read back.
use rove.Base.{ℕ, ◌+◌, ◌-◌, ◌^◌, ◌<◌}
use rove.Base.{◌≡◌, refl, sym, ap, ◌∙◌, Bool, true, false, some, List, ◌++◌, arith}
use rove.Base.{ltb, if◌then◌else◌, le→ltb_false}
use rove.Base.{
  drop-append_add, All-append, length, take, drop, All, length-append, take-append_length,
  drop-append_length,
}
use rove.Base.Bytes.{
  IsByte, to_le_bytes, xor_prefix, length-to_le_bytes, from_le_bytes-to_le_bytes,
  to_le_bytes-IsByte, length-xor_prefix, xor_prefix_twice, xor_prefix-append,
}
use rove.Subnetra.Crypto.{
  Primitives, AeadKey, seal, length-seal, obfuscation_pad, length-obfuscation_pad,
  obfuscation_pad-IsByte,
}
use rove.Subnetra.Wire.Header
use rove.Subnetra.Wire.Header.{Header, wire_version}
use rove.Subnetra.Wire.{datagram_tag, demask_header, seal_datagram, split}

-- Each field fits its integer type.
pub record Fits (h : Header) : Type 0 where
  pub version : h.version < 256
  pub flags : h.flags < 256
  pub key_id : h.key_id < 2 ^ 16
  pub epoch : h.epoch < 2 ^ 64
  pub seq : h.seq < 2 ^ 64

pub length-to_bytes : (h : Header) → length (Header.to_bytes h) ≡ 20
unfolding Header.to_bytes
length-to_bytes h = omega (
  arith,
  length-append (to_le_bytes 2 h.key_id) (to_le_bytes 8 h.epoch ++ to_le_bytes 8 h.seq),
  length-append (to_le_bytes 8 h.epoch) (to_le_bytes 8 h.seq),
  length-to_le_bytes 2 h.key_id,
  length-to_le_bytes 8 h.epoch,
  length-to_le_bytes 8 h.seq,
)

pub to_bytes-IsByte :
    (h : Header) → h.version < 256 → h.flags < 256 → All IsByte (Header.to_bytes h)
unfolding Header.to_bytes
to_bytes-IsByte h hv hf = (
  hv,
  (
    hf,
    All-append IsByte (to_le_bytes 2 h.key_id) _ (to_le_bytes-IsByte 2 h.key_id) (
        All-append IsByte (to_le_bytes 8 h.epoch) _ (to_le_bytes-IsByte 8 h.epoch)
          (to_le_bytes-IsByte 8 h.seq)),
  ),
)

-- A header whose fields fit their types is read back from its bytes, whatever follows them.
pub parse-to_bytes :
    (h : Header) (rest : List ℕ) → Fits h → Header.parse (Header.to_bytes h ++ rest) ≡ some h
unfolding Header.parse Header.to_bytes to_le_bytes
parse-to_bytes h rest f = ground (
  arith,
  from_le_bytes-to_le_bytes 2 h.key_id f.key_id,
  from_le_bytes-to_le_bytes 8 h.epoch f.epoch,
  from_le_bytes-to_le_bytes 8 h.seq f.seq,
)

-- The header that the sender writes.
abbrev pub sent_header : ℕ → ℕ → ℕ → ℕ → Header
sent_header local_id epoch seq flags = record {
  version = wire_version;
  flags = flags;
  key_id = local_id;
  epoch = epoch;
  seq = seq;
}

module _ (c : Primitives) (link : List ℕ) (aead : AeadKey) (local_id epoch seq flags : ℕ)
    (text : List ℕ) where
  abbrev body : List ℕ
  body = seal c aead seq text

  abbrev tag : List ℕ
  tag = drop (length body - 16) body

  abbrev header : List ℕ
  header = Header.to_bytes (sent_header local_id epoch seq flags)

  masked_datagram :
      xor_prefix (obfuscation_pad c link tag) (header ++ body)
      ≡ xor_prefix (obfuscation_pad c link tag) header ++ body
  masked_datagram = xor_prefix-append (obfuscation_pad c link tag) header body (
      length-obfuscation_pad c link tag
      ∙ sym (length-to_bytes (sent_header local_id epoch seq flags)))

  -- The header of a sealed datagram, masked or not, takes its first 20 bytes.
  pub sealed_parts :
      (obfuscate : Bool)
      → (front : List ℕ) × (front
          ≡ (if obfuscate then xor_prefix (obfuscation_pad c link tag) header else header))
        × (length front ≡ 20)
        × (seal_datagram c link aead local_id epoch seq flags text obfuscate ≡ front ++ body)
  unfolding seal_datagram
  sealed_parts true = (
    xor_prefix (obfuscation_pad c link tag) header,
    refl,
    length-xor_prefix (obfuscation_pad c link tag) header
        ∙ length-to_bytes (sent_header local_id epoch seq flags),
    masked_datagram,
  )
  sealed_parts false = (header, refl, length-to_bytes (sent_header local_id epoch seq flags), refl)

  -- The tag of a sealed datagram is that of its body, in clear also under obfuscation.
  pub datagram_tag-seal_datagram :
      (obfuscate : Bool)
      → datagram_tag (seal_datagram c link aead local_id epoch seq flags text obfuscate) ≡ some tag
  unfolding datagram_tag
  datagram_tag-seal_datagram obfuscate =
      let (front, _, size, e) = sealed_parts obfuscate in
      let total : length (front ++ body) ≡ 36 + length text =
        omega (arith, length-append front body, length-seal c aead seq text) in
      let short : ltb (length (front ++ body)) 36 ≡ false = le→ltb_false _ 36 (omega arith) in
      rw (e, short)
        (ap some (
          drop-append_add front body (length body - 16) (length (front ++ body) - 16)
            (omega (arith, length-append front body, length-seal c aead seq text))))

  -- A sealed datagram splits into its header, masked or not, and its body.
  pub split-seal_datagram :
      (obfuscate : Bool)
      → split (seal_datagram c link aead local_id epoch seq flags text obfuscate)
        ≡ some
            ((if obfuscate then xor_prefix (obfuscation_pad c link tag) header else header), body)
  unfolding split
  split-seal_datagram obfuscate =
      let (front, masked, size, e) = sealed_parts obfuscate in
      let total : length (front ++ body) ≡ 36 + length text =
        omega (arith, length-append front body, length-seal c aead seq text) in
      let short : ltb (length (front ++ body)) 36 ≡ false = le→ltb_false _ 36 (omega arith) in
      rw (
        e,
        short,
        take-append_length 20 front body size,
        drop-append_length 20 front body size,
        masked,
      )

  -- The receiver's pad, from the same link key and the tag, gives the header back.
  pub demask-seal_datagram :
      flags < 256
      → demask_header
          (take 20 (seal_datagram c link aead local_id epoch seq flags text true))
          (obfuscation_pad c link tag)
        ≡ header
  unfolding demask_header seal_datagram
  demask-seal_datagram hf =
      rw
        (
          masked_datagram,
          take-append_length 20 (xor_prefix (obfuscation_pad c link tag) header) body (
              length-xor_prefix (obfuscation_pad c link tag) header
              ∙ length-to_bytes (sent_header local_id epoch seq flags)),
        )
        (xor_prefix_twice (obfuscation_pad c link tag) header (obfuscation_pad-IsByte c link tag)
          (to_bytes-IsByte (sent_header local_id epoch seq flags) (omega arith) hf))
