-- ===== src/Subnetra/Config/Lowered.antt =====
-- The peers of a configuration that is accepted.
use rove.Base.{ℕ, ◌*◌, ◌<◌}
use rove.Base.{
  ◌≡◌, refl, ◌≢◌, inl, inr, true, false, not, ◌||◌, Option, none, some, List, [], ◌∷◌, map, arith,
}
use rove.Base.{◌==◌, Bool-cases}
use rove.Base.{length, All}
use rove.Base.Bytes.{IsByte}
use rove.Base.Eq.{member, nat_eq, list_eq}
use rove.Base.Text.{Text, trim}
use rove.Base.Result.{Result, ok, err, ensure, ok_or}
use rove.Base.{IsDistinct}
use rove.Base.Result.{Holds, Holds-bind, Holds-map, ensure-Holds, ok_or-Holds}
use rove.Subnetra.Config.{
  Mode, PeerConfig, RuntimePeer, ConfigError, NetText, parse_psk, psk_bytes, from_str_radix,
  hex_value, two_digits, can_dial, lower_peers, lower_endpoint, zero_peer_id, local_peer_id,
  duplicate_peer_id, bad_allowed_src, missing_endpoint, bad_psk_length, panicked, psk_not_hex,
  is_continuation, starts_inside,
}
use rove.Subnetra.Crypto.{key_len}

abbrev IsKey : List ℕ → Type 0
IsKey key = (length key ≡ 32) × All IsByte key

-- A peer that a node of the role and id may have.
pub record IsPeer (mode : Mode) (local_id : ℕ) (p : RuntimePeer) : Type 0 where
  pub nonzero : p.id ≢ 0
  pub remote : p.id ≢ local_id
  pub key : IsKey p.psk
  pub dialled : can_dial mode p.endpoint ≡ true

abbrev pub ids : List RuntimePeer → List ℕ
ids = map (λ p. p.id)

-- The peers of the list, in its order, with distinct ids that are not among those seen.
pub record AreLowered (mode : Mode) (local_id : ℕ) (seen : List ℕ) (ps : List PeerConfig)
    (rs : List RuntimePeer) : Type 0 where
  pub each : All (IsPeer mode local_id) rs
  pub same_ids : ids rs ≡ map (λ p. p.id) ps
  pub unseen : All (λ p. member p.id seen ≡ false) rs
  pub distinct : IsDistinct (ids rs)

hex_value-bounded : (c v : ℕ) → hex_value c ≡ some v → v < 16
hex_value-bounded c v h = ground arith

two_digits-bounded :
    (x y : Option ℕ) (v : ℕ)
    → ((d : ℕ) → x ≡ some d → d < 16)
    → ((d : ℕ) → y ≡ some d → d < 16)
    → two_digits x y ≡ some v
    → v < 256
two_digits-bounded none y v hx hy h = cc
two_digits-bounded (some a) none v hx hy h = cc
two_digits-bounded (some a) (some b) v hx hy h =
    let low = hx a refl in let high = hy b refl in ground arith

from_str_radix-IsByte : (a b v : ℕ) → from_str_radix a b ≡ some v → IsByte v
from_str_radix-IsByte a b v h = elim (Bool-cases (a == b'+')) [
  | inl plus ↦ let d = hex_value-bounded b v (rw plus at h) in omega arith
  | inr plain ↦
      two_digits-bounded (hex_value a) (hex_value b) v (hex_value-bounded a) (hex_value-bounded b)
        (rw plain at h)
]

psk_bytes-Holds :
    (s : Text) → Holds (λ key. (length key * 2 ≡ length s) × All IsByte key) (psk_bytes s)
unfolding psk_bytes
psk_bytes-Holds [] = (omega arith, tt)
psk_bytes-Holds (a ∷ []) = tt
psk_bytes-Holds (a ∷ b ∷ s) =
    Holds-bind _ _ (ensure (not (is_continuation a || starts_inside s)) panicked) _
      (ensure-Holds _ panicked)
      λ u whole.
        Holds-bind _ _ (ok_or (from_str_radix a b) psk_not_hex) _ (ok_or-Holds _ psk_not_hex)
          λ byte e.
            Holds-bind _ _ (psk_bytes s) _ (psk_bytes-Holds s)
              λ rest (size, bytes). (omega arith, (from_str_radix-IsByte a b byte e, bytes))

parse_psk-IsKey : (s : Text) → Holds IsKey (parse_psk s)
unfolding parse_psk
parse_psk-IsKey s =
    Holds-bind _ _ (ensure (length (trim s) == key_len * 2) bad_psk_length) _
      (ensure-Holds _ bad_psk_length)
      λ u sized.
        Holds-map _ _ (psk_bytes (trim s)) (λ key (size, bytes). (ground arith, bytes))
          (psk_bytes-Holds (trim s))

unequal : (a b : ℕ) → not (a == b) ≡ true → a ≢ b
unequal a b h e = ground arith

-- One more peer in front of those that were lowered after it.
AreLowered-cons :
    (mode : Mode) (local_id : ℕ) (seen : List ℕ) (p : PeerConfig) (ps : List PeerConfig)
    (r : RuntimePeer) (rs : List RuntimePeer)
    → r.id ≡ p.id
    → IsPeer mode local_id r
    → member p.id seen ≡ false
    → AreLowered mode local_id (p.id ∷ seen) ps rs
    → AreLowered mode local_id seen (p ∷ ps) (r ∷ rs)
AreLowered-cons mode local_id seen p ps r rs e peer new h = record {
  each = (peer, h.each);
  same_ids = rw (e, h.same_ids) refl;
  unseen = (rw e new, older rs h.unseen);
  distinct = (others rs h.unseen, h.distinct);
}
  where
    older :
        (xs : List RuntimePeer)
        → All (λ x. member x.id (p.id ∷ seen) ≡ false) xs
        → All (λ x. member x.id seen ≡ false) xs
    older [] k = tt
    older (x ∷ xs) (k, ks) = (ground arith, older xs ks)

    others :
        (xs : List RuntimePeer)
        → All (λ x. member x.id (p.id ∷ seen) ≡ false) xs
        → All (λ y. r.id ≢ y) (ids xs)
    others [] k = tt
    others (x ∷ xs) (k, ks) = (λ same_id. ground arith, others xs ks)

module _ (net : NetText) where
  -- The peers that are accepted are those of the configuration, in its order and with its ids,
  -- which are distinct, not zero and not the node's own; each key has 32 bytes, and a spoke has an
  -- endpoint for each.
  pub lower_peers-AreLowered :
      (mode : Mode) (local_id : ℕ) (seen : List ℕ) (ps : List PeerConfig)
      → Holds (AreLowered mode local_id seen ps) (lower_peers net mode local_id seen ps)
  unfolding lower_peers
  lower_peers-AreLowered mode local_id seen [] = record {
    each = tt;
    same_ids = refl;
    unseen = tt;
    distinct = tt;
  }
  lower_peers-AreLowered mode local_id seen (p ∷ ps) =
      Holds-bind _ _ (ensure (not (p.id == 0)) zero_peer_id) _ (ensure-Holds _ zero_peer_id)
        λ u1 nonzero.
          Holds-bind _ _ (ensure (not (p.id == local_id)) local_peer_id) _
            (ensure-Holds _ local_peer_id)
            λ u2 remote.
              Holds-bind _ _ (ensure (not (member p.id seen)) duplicate_peer_id) _
                (ensure-Holds _ duplicate_peer_id)
                λ u3 new. Holds-bind _ _ (parse_psk p.psk) _ (parse_psk-IsKey p.psk) λ psk key.
                  Holds-bind (λ a. Unit {0}) _
                    (ok_or (net.parse_ipv4_net (trim p.allowed_src)) bad_allowed_src) _ (always _)
                    λ allowed_src u4.
                      Holds-bind (λ a. Unit {0}) _ (lower_endpoint net p.endpoint) _ (always _)
                        λ endpoint u5.
                          Holds-bind _ _ (ensure (can_dial mode endpoint) missing_endpoint) _
                            (ensure-Holds _ missing_endpoint)
                            λ u6 dialled.
                              Holds-bind _ _ (lower_peers net mode local_id (p.id ∷ seen) ps) _
                                (lower_peers-AreLowered mode local_id (p.id ∷ seen) ps)
                                λ rest h.
                                  AreLowered-cons mode local_id seen p ps _ rest refl
                                    record {
                                      nonzero = unequal p.id 0 nonzero;
                                      remote = unequal p.id local_id remote;
                                      key = key;
                                      dialled = dialled;
                                    }
                                    (ground arith) h
    where
      always : {A : Type 0} (r : Result ConfigError A) → Holds (λ a. Unit {0}) r
      always (ok a) = tt
      always (err e) = tt
