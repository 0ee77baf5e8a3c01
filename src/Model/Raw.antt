-- ===== src/Model/Raw.antt =====
-- The wire format of src/model.rs. An action and an egress are decoded through an untyped form
-- with every field optional, and encoded into it; the JSON in between is serde's.
pub mod Strict
use rove.Base.{
  ℕ, zero, suc, ◌+◌, ◌-◌, ◌*◌, ◌/◌, ◌%◌, ◌^◌, ◌≤◌, ◌<◌, min, max, bit_and, bit_or, bit_xor,
}
use rove.Base.{
  ◌≡◌, refl, sym, ap, ◌∙◌, ◌≢◌, ◌↔◌, ◌⊎◌, inl, inr, Bool, true, false, not, ◌&&◌, ◌||◌, Option,
  none, some, List, [], ◌∷◌, ◌++◌, map, arith,
}
use rove.Base.{
  ltb, leb, ◌==◌, if◌then◌else◌, ltb→lt, lt→ltb, leb→le, le→leb, le→ltb_false, ==_iff, Bool-cases,
  Option-cases,
}
use rove.Base.{
  drop-append_add, All-take, All-append, replicate, length, get_elem?, set, take, drop, any, all,
  All, length-append, length-take, length-drop, take-append_length, drop-append_length,
  take-append-drop, any-append, length-set, get_elem?-set_self, get_elem?-set_ne,
}
use rove.Base.Eq.{Eq, same, same_refl, list_beq, list_beq_iff, member, nat_eq, list_eq}
use rove.Base.Bytes.{ascii}
use rove.Base.Text.{
  Text, is_empty, to_ascii_lowercase, trim, trim_matches, strip_prefix, contains_text, split_on,
  split_once, join_with,
}
use rove.Base.Text.Split.{IsFree, split_on-IsFree, split_on-join_with}
use rove.Base.Result.{Result, ok, err, ◌>>=◌, ensure, ok_or}
use rove.Base.Assoc.{find, has_key, insert}

abbrev pub schema_version_current : ℕ
schema_version_current = 1

abbrev pub max_supported_schema_version : ℕ
max_supported_schema_version = schema_version_current

unfoldable pub schema_version_supported : ℕ → ℕ → Bool
schema_version_supported schema_version max_supported =
    leb 1 schema_version && leb schema_version max_supported

pub record RawUpstream : Type 0 where
  pub kind : Text
  pub addr : Text
  pub username : Option Text
  pub password : Option Text
  pub tls : Bool
  pub skip_cert_verify : Bool

pub record RawChainMember : Type 0 where
  pub id : Text
  pub priority : ℕ
  pub backend : RawUpstream

pub record RawFrontendCred : Type 0 where
  pub uuid : Option Text
  pub password : Option Text

pub data RawAction : Type 0 where
  egress : Text → RawAction
  direct : RawAction
  block : RawAction

pub record RawActionWire : Type 0 where
  pub kind : Text
  pub egress_id : Option Text

pub data WireError : Type 0 where
  missing_field : WireError
  stray_field : WireError
  unknown_type : WireError

abbrev pub is_none : {A : Type 0} → Option A → Bool
is_none none = true
is_none (some a) = false

-- `RawAction::try_from`
unfoldable pub action_of_wire : RawActionWire → Result WireError RawAction
action_of_wire w =
    if list_beq w.kind (ascii "egress")
    then (do id ← ok_or w.egress_id missing_field; ok (egress id))
    else (if list_beq w.kind (ascii "direct")
        then (do _ ← ensure (is_none w.egress_id) stray_field; ok direct)
        else (if list_beq w.kind (ascii "block")
            then (do _ ← ensure (is_none w.egress_id) stray_field; ok block)
            else err unknown_type))

-- `RawActionWire::from`
unfoldable pub wire_of_action : RawAction → RawActionWire
wire_of_action (egress id) = record { kind = ascii "egress"; egress_id = some id }
wire_of_action direct = record { kind = ascii "direct"; egress_id = none }
wire_of_action block = record { kind = ascii "block"; egress_id = none }

pub data RawEgress : Type 0 where
  upstream : RawUpstream → RawEgress
  chain : List RawChainMember → RawEgress

pub record RawEgressWire : Type 0 where
  pub kind : Text
  pub backend : Option RawUpstream
  pub members : Option (List RawChainMember)

unfoldable pub egress_of_wire : RawEgressWire → Result WireError RawEgress
egress_of_wire w =
    if list_beq w.kind (ascii "upstream")
    then (do
      _ ← ensure (is_none w.members) stray_field
      backend ← ok_or w.backend missing_field
      ok (upstream backend))
    else (if list_beq w.kind (ascii "chain")
        then (do
          _ ← ensure (is_none w.backend) stray_field
          members ← ok_or w.members missing_field
          ok (chain members))
        else err unknown_type)

unfoldable pub wire_of_egress : RawEgress → RawEgressWire
wire_of_egress (upstream b) = record { kind = ascii "upstream"; backend = some b; members = none }
wire_of_egress (chain ms) = record { kind = ascii "chain"; backend = none; members = some ms }

pub record RawUser : Type 0 where
  pub password : Text
  pub expire : Option Text
  pub up_rate : ℕ
  pub down_rate : ℕ
  pub max_connections : ℕ
  pub policy : Text
  pub frontends : List (Text × RawFrontendCred)

pub record RawRoute : Type 0 where
  pub selectors : List Text
  pub action : RawAction

pub record RawRoutingPolicy : Type 0 where
  pub routes : List RawRoute
  pub default_action : Option RawAction

pub record NodeOverride : Type 0 where
  pub egresses : List (Text × RawEgress)

pub record RawSnapshot : Type 0 where
  pub schema_version : ℕ
  pub version : ℕ
  pub users : List (Text × RawUser)
  pub routing_policies : List (Text × RawRoutingPolicy)
  pub egresses : List (Text × RawEgress)
  pub node_overrides : List (Text × NodeOverride)

-- The parameter is what serde makes of the bytes.
unfoldable pub decode_snapshot : (List ℕ → Option RawSnapshot) → List ℕ → Option RawSnapshot
unfolding schema_version_supported
decode_snapshot from_slice bytes = elim (from_slice bytes) [
  | none ↦ none
  | some doc ↦
      if schema_version_supported doc.schema_version max_supported_schema_version
      then some doc
      else none
]
