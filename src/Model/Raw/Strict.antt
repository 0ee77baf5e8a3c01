-- ===== src/Model/Raw/Strict.antt =====
-- Decoded actions and egresses and their wire forms, src/model.rs.
use rove.Base.{◌≡◌, refl, ap, ◌∙◌, ◌↔◌, Option, none, some, List, arith}
use rove.Base.Eq.{list_beq_iff, nat_eq, list_eq}
use rove.Base.Bytes.{ascii}
use rove.Base.Text.{Text}
use rove.Base.Result.{ok}
use rove.Model.Raw.{
  RawUpstream, RawChainMember, RawAction, RawActionWire, egress, direct, block, action_of_wire,
  wire_of_action, RawEgress, RawEgressWire, upstream, chain, egress_of_wire, wire_of_egress,
}

pub action_of_wire-wire_of_action : (a : RawAction) → action_of_wire (wire_of_action a) ≡ ok a
unfolding action_of_wire wire_of_action
action_of_wire-wire_of_action (egress id) = refl
action_of_wire-wire_of_action direct = refl
action_of_wire-wire_of_action block = refl

wire_unique :
    (k : Text) (o : Option Text) (a : RawAction)
    → action_of_wire (record { kind = k; egress_id = o }) ≡ ok a
    → record { kind = k; egress_id = o } ≡ wire_of_action a
unfolding action_of_wire wire_of_action
wire_unique k none a h = ground (
  arith,
  list_beq_iff k (ascii "egress"),
  list_beq_iff k (ascii "direct"),
  list_beq_iff k (ascii "block"),
)
wire_unique k (some id) a h = ground (
  arith,
  list_beq_iff k (ascii "egress"),
  list_beq_iff k (ascii "direct"),
  list_beq_iff k (ascii "block"),
)

-- A wire form decodes to an action just when it is the form that the action is encoded as.
pub action_of_wire_iff :
    (w : RawActionWire) (a : RawAction) → (action_of_wire w ≡ ok a) ↔ (w ≡ wire_of_action a)
action_of_wire_iff w a = (
  λ h. wire_unique w.kind w.egress_id a h,
  λ h. ap action_of_wire h ∙ action_of_wire-wire_of_action a,
)

pub egress_of_wire-wire_of_egress : (e : RawEgress) → egress_of_wire (wire_of_egress e) ≡ ok e
unfolding egress_of_wire wire_of_egress
egress_of_wire-wire_of_egress (upstream b) = refl
egress_of_wire-wire_of_egress (chain ms) = refl

egress_unique :
    (k : Text) (b : Option RawUpstream) (ms : Option (List RawChainMember)) (e : RawEgress)
    → egress_of_wire (record { kind = k; backend = b; members = ms }) ≡ ok e
    → record { kind = k; backend = b; members = ms } ≡ wire_of_egress e
unfolding egress_of_wire wire_of_egress
egress_unique k none none e h =
    ground (arith, list_beq_iff k (ascii "upstream"), list_beq_iff k (ascii "chain"))
egress_unique k none (some ms) e h =
    ground (arith, list_beq_iff k (ascii "upstream"), list_beq_iff k (ascii "chain"))
egress_unique k (some b) none e h =
    ground (arith, list_beq_iff k (ascii "upstream"), list_beq_iff k (ascii "chain"))
egress_unique k (some b) (some ms) e h =
    ground (arith, list_beq_iff k (ascii "upstream"), list_beq_iff k (ascii "chain"))

-- A wire form decodes to an egress just when it is the form that the egress is encoded as.
pub egress_of_wire_iff :
    (w : RawEgressWire) (e : RawEgress) → (egress_of_wire w ≡ ok e) ↔ (w ≡ wire_of_egress e)
egress_of_wire_iff w e = (
  λ h. egress_unique w.kind w.backend w.members e h,
  λ h. ap egress_of_wire h ∙ egress_of_wire-wire_of_egress e,
)
