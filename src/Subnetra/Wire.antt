-- ===== src/Subnetra/Wire.antt =====
-- The datagram format of the overlay, src/subnetra/wire.rs.
pub mod Header
pub mod RoundTrip
use rove.Base.{
  ℕ, zero, suc, ◌+◌, ◌-◌, ◌*◌, ◌/◌, ◌%◌, ◌^◌, ◌≤◌, ◌<◌, min, max, bit_and, bit_or, bit_xor,
}
use rove.Base.{
  ◌≡◌, refl, sym, ap, ◌∙◌, ◌≢◌, ◌↔◌, ◌⊎◌, inl, inr, Bool, true, false, not, ◌&&◌, ◌||◌, Option,
  none, some, List, [], ◌∷◌, ◌++◌, map, arith,
}
use rove.Base.{
  ltb, leb, ◌==◌, if◌then◌else◌, ltb→lt, lt→ltb, leb→le, le→leb, le→ltb_false, ==_iff, Bool-cases,
  Option-cases,
}
use rove.Base.{
  All-take, All-append, replicate, length, get_elem?, set, take, drop, any, all, All, length-append,
  length-take, length-drop, take-append_length, drop-append_length, take-append-drop, any-append,
  length-set, get_elem?-set_self, get_elem?-set_ne,
}
use rove.Base.Bytes.{
  ascii, IsByte, to_le_bytes, to_be_bytes, from_le_bytes, from_be_bytes, slice, byte_at, xor_prefix,
  length-to_le_bytes, length-to_be_bytes, from_le_bytes-to_le_bytes, from_be_bytes-to_be_bytes,
  to_le_bytes-IsByte, length-xor_prefix, xor_prefix_twice, xor_prefix-append,
}
use Header.{wire_version}
use rove.Subnetra.Crypto.{Primitives, AeadKey, tag_len, header_len, seal, obfuscation_pad}

-- The last 16 bytes of a datagram that can hold a header and a tag.
unfoldable pub datagram_tag : List ℕ → Option (List ℕ)
datagram_tag datagram =
    if ltb (length datagram) (header_len + tag_len)
    then none
    else some (drop (length datagram - tag_len) datagram)

-- `masked` has 20 bytes, as the pad has.
unfoldable pub demask_header : List ℕ → List ℕ → List ℕ
demask_header masked pad = xor_prefix pad masked

unfoldable pub seal_datagram :
    Primitives → List ℕ → AeadKey → ℕ → ℕ → ℕ → ℕ → List ℕ → Bool → List ℕ
unfolding Header.to_bytes
seal_datagram c link_key aead local_id epoch seq flags plaintext obfuscate =
    let header = Header.to_bytes (record {
      version = wire_version;
      flags = flags;
      key_id = local_id;
      epoch = epoch;
      seq = seq;
    }) in
    let body = seal c aead seq plaintext in
    if obfuscate
    then xor_prefix (obfuscation_pad c link_key (drop (length body - tag_len) body))
        (header ++ body)
    else header ++ body

-- The header and the body of a datagram that can hold a header and a tag.
unfoldable pub split : List ℕ → Option (List ℕ × List ℕ)
split datagram =
    if ltb (length datagram) (header_len + tag_len)
    then none
    else some (take header_len datagram, drop header_len datagram)
