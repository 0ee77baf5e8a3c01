-- ===== src/Subnetra/Wire/Header.antt =====
-- The 20-byte header, `Header` of src/subnetra/wire.rs.
use rove.Base.{ℕ, bit_and}
use rove.Base.{Bool, not, ◌&&◌, Option, none, some, List, ◌∷◌, ◌++◌}
use rove.Base.{ltb, ◌==◌, if◌then◌else◌}
use rove.Base.{length}
use rove.Base.Bytes.{to_le_bytes, from_le_bytes, slice, byte_at}
use rove.Subnetra.Crypto.{header_len}

abbrev pub keepalive : ℕ
keepalive = 1

abbrev pub wire_version : ℕ
wire_version = 1

pub record Header : Type 0 where
  pub version : ℕ
  pub flags : ℕ
  pub key_id : ℕ
  pub epoch : ℕ
  pub seq : ℕ

unfoldable pub parse : List ℕ → Option Header
parse bytes =
    if ltb (length bytes) header_len
    then none
    else some (record {
      version = byte_at bytes 0;
      flags = byte_at bytes 1;
      key_id = from_le_bytes (slice 2 4 bytes);
      epoch = from_le_bytes (slice 4 12 bytes);
      seq = from_le_bytes (slice 12 20 bytes);
    })

unfoldable pub to_bytes : Header → List ℕ
to_bytes h =
    h.version ∷ h.flags ∷ to_le_bytes 2 h.key_id ++ (to_le_bytes 8 h.epoch ++ to_le_bytes 8 h.seq)

-- `!KEEPALIVE` on a u8 is 254.
unfoldable pub is_valid : Header → Bool
is_valid h = h.version == wire_version && (bit_and h.flags 254 == 0 && not (h.epoch == 0))

unfoldable pub is_keepalive : Header → Bool
is_keepalive h = not (bit_and h.flags keepalive == 0)
