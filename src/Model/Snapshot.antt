-- ===== src/Model/Snapshot.antt =====
-- Compiling a snapshot, `Snapshot::compile_checked` of src/model.rs, in the order of its checks. The
-- address book's selector cache, which `prune_selector_cache` shortens, is not part of the state.
pub mod Closed
pub mod Served
use rove.Base.{ℕ, ◌+◌, ◌-◌, ◌*◌, ◌^◌, min}
use rove.Base.{inl, inr, not, Option, none, some, List, [], ◌∷◌}
use rove.Base.{ltb, leb, ◌==◌, if◌then◌else◌}
use rove.Base.{length}
use rove.Base.Eq.{member, nat_eq, list_eq}
use rove.Base.Text.{Text, is_empty, to_ascii_lowercase, trim}
use rove.Base.Result.{Result, ok, err, ◌>>=◌, ensure, ok_or}
use rove.Base.Assoc.{find, has_key, insert}
use rove.Policy.Ip.{IpText}
use rove.Policy.Rules.{Books, RuleSet, from_rules}
use rove.Model.Raw.{
  RawFrontendCred, RawAction, RawEgress, RawUser, RawRoute, RawRoutingPolicy, NodeOverride,
  RawSnapshot, schema_version_supported, schema_version_current, max_supported_schema_version,
}
use rove.Model.Egress.{Egress, RouteAction, go_direct, compile_egress, compile_action, CompileError}
use rove.Model.Policy.{Route, RoutingPolicy, from_routes}

pub record FrontendCred : Type 0 where
  pub uuid : Option Text
  pub password : Option Text

pub record User (Date : Type 0) : Type 0 where
  pub password : Text
  pub expire : Option Date
  pub up_rate : ℕ
  pub down_rate : ℕ
  pub max_connections : ℕ
  pub policy : Text
  pub frontends : List (Text × FrontendCred)

abbrev pub FrontendIndex : Type 0
FrontendIndex = List (Text × List (Text × Text))

pub record Snapshot (Book Selector Date : Type 0) : Type 0 where
  pub version : ℕ
  pub schema_version : ℕ
  pub users : List (Text × User Date)
  pub policies : List (Text × RoutingPolicy Book Selector)
  pub frontend_index : FrontendIndex

abbrev pub max_users : ℕ
max_users = 100000

abbrev pub max_policies : ℕ
max_policies = 10000

abbrev pub max_egresses : ℕ
max_egresses = 10000

abbrev pub max_rules : ℕ
max_rules = 200000

abbrev pub max_node_overrides : ℕ
max_node_overrides = 10000

abbrev pub max_selector_bytes : ℕ
max_selector_bytes = 64 * 1024 * 1024

-- The entries of a node's override, each in place of a base egress.
unfoldable pub apply_overrides :
    List (Text × RawEgress)
    → List (Text × RawEgress)
    → Result CompileError (List (Text × RawEgress))
unfolding insert trim
apply_overrides [] egresses = ok egresses
apply_overrides ((id, e) ∷ os) egresses =
    let rest = apply_overrides os (insert egresses id e) in
    do
      _ ← ensure (not (is_empty (trim id))) CompileError.override_id_required
      _ ← ensure (has_key egresses id) CompileError.override_without_base
      rest

unfoldable pub override_for :
    List (Text × NodeOverride)
    → Text
    → List (Text × RawEgress)
    → Result CompileError (List (Text × RawEgress))
unfolding apply_overrides find
override_for overrides node_id egresses = elim (find overrides node_id) [
  | none ↦ ok egresses
  | some o ↦ apply_overrides o.egresses egresses
]

unfoldable pub compile_egresses :
    List (Text × RawEgress) → Result CompileError (List (Text × Egress))
unfolding compile_egress trim
compile_egresses [] = ok []
compile_egresses ((id, raw) ∷ rs) =
    let rest = compile_egresses rs in
    do
      _ ← ensure (not (is_empty (trim id))) CompileError.egress_id_required
      e ← compile_egress id raw
      es ← rest
      ok ((id, e) ∷ es)

-- What the loop over the policies counts: rules, and selectors by allocation with their bytes.
pub record Totals : Type 0 where
  pub rules : ℕ
  pub allocations : List ℕ
  pub bytes : ℕ

unfoldable pub count_selectors : List Text → ℕ
unfolding trim
count_selectors [] = 0
count_selectors (s ∷ ss) =
    let rest = count_selectors ss in if is_empty (trim s) then rest else rest + 1

abbrev pub saturating_add : ℕ → ℕ → ℕ
saturating_add a b = min (a + b) (2 ^ 64 - 1)

abbrev pub compile_default :
    List (Text × Egress) → Option RawAction → Result CompileError RouteAction
unfolding compile_action
compile_default egresses none = ok go_direct
compile_default egresses (some a) = compile_action a egresses

module _ {Book Selector : Type 0} (x : IpText) (bk : Books Book Selector) (book : Option Book) where
  abbrev pub compile_selectors : List Text → Result CompileError (RuleSet Book Selector)
  unfolding from_rules
  compile_selectors rules = elim (from_rules x bk rules book) [
    | inl e ↦ err CompileError.bad_selectors
    | inr rs ↦ ok rs
  ]

module _ {Book Selector : Type 0} (allocation : Selector → ℕ × ℕ) where
  unfoldable pub account_book_selector :
      RuleSet Book Selector → Totals → ℕ → Result CompileError Totals
  account_book_selector rs t limit = elim rs.book [
    | none ↦ ok t
    | some b ↦ if member (allocation b.selector).0 t.allocations then ok t else (do
      _ ←
          ensure (ltb (t.bytes + (allocation b.selector).1) (2 ^ 64))
            CompileError.selector_size_overflow
      _ ← ensure (leb (t.bytes + (allocation b.selector).1) limit) CompileError.selector_budget
      ok record t {
        allocations = (allocation b.selector).0 ∷ t.allocations;
        bytes = t.bytes + (allocation b.selector).1;
      })
  ]

  module _ (x : IpText) (bk : Books Book Selector) (book : Option Book) where
    unfoldable pub compile_routes :
        List (Text × Egress)
        → List RawRoute
        → Totals
        → Result CompileError (List (Route Book Selector) × Totals)
    unfolding count_selectors account_book_selector compile_action
    compile_routes egresses [] t = ok ([], t)
    compile_routes egresses (r ∷ rs) t = do
      _ ← ensure (ltb 0 (count_selectors r.selectors)) CompileError.selector_required
      _ ←
          ensure (leb (saturating_add t.rules (count_selectors r.selectors)) max_rules)
            CompileError.too_many_rules
      selectors ← compile_selectors x bk book r.selectors
      after ←
          account_book_selector selectors
            record t { rules = saturating_add t.rules (count_selectors r.selectors) }
            max_selector_bytes
      action ← compile_action r.action egresses
      rest ← compile_routes egresses rs after
      ok (
        record { selectors = selectors; selector_rules = r.selectors; action = action } ∷ rest.0,
        rest.1,
      )

    unfoldable pub compile_policies :
        List (Text × Egress)
        → List (Text × RawRoutingPolicy)
        → Totals
        → Result CompileError (List (Text × RoutingPolicy Book Selector))
    unfolding compile_routes from_routes trim
    compile_policies egresses [] t = ok []
    compile_policies egresses ((id, raw) ∷ ps) t = do
      _ ← ensure (not (is_empty (trim id))) CompileError.policy_id_required
      default_action ← compile_default egresses raw.default_action
      routes ← compile_routes egresses raw.routes t
      rest ← compile_policies egresses ps routes.1
      ok ((id, from_routes routes.0 default_action) ∷ rest)

-- One front-end credential indexed under its canonical uuid.
unfoldable pub claim_uuid :
    Text → Text → RawFrontendCred → FrontendIndex → Result CompileError FrontendIndex
unfolding find insert trim to_ascii_lowercase
claim_uuid name proto cred index = elim cred.uuid [
  | none ↦ ok index
  | some uuid ↦
      let key = to_ascii_lowercase (trim uuid) in
      let claimed = elim (find index proto) as (λ _. List (Text × Text)) [
        | none ↦ []
        | some keys ↦ keys
      ] in
      if is_empty key then ok index else elim (find claimed key) [
        | none ↦ ok (insert index proto (insert claimed key name))
        | some prev ↦ err CompileError.uuid_claimed
      ]
]

unfoldable pub compile_frontends :
    Text
    → List (Text × RawFrontendCred)
    → FrontendIndex
    → Result CompileError (List (Text × FrontendCred) × FrontendIndex)
unfolding claim_uuid
compile_frontends name [] index = ok ([], index)
compile_frontends name ((proto, cred) ∷ fs) index = do
  after ← claim_uuid name proto cred index
  rest ← compile_frontends name fs after
  ok ((proto, record { uuid = cred.uuid; password = cred.password }) ∷ rest.0, rest.1)

module _ {Date : Type 0} (parse_date : Text → Option Date) where
  abbrev pub compile_expire : Option Text → Result CompileError (Option Date)
  unfolding trim
  compile_expire none = ok none
  compile_expire (some s) =
      if is_empty (trim s)
      then ok none
      else (do d ← ok_or (parse_date (trim s)) CompileError.bad_expire; ok (some d))

  unfoldable pub compile_user :
      Text → RawUser → FrontendIndex → Result CompileError (User Date × FrontendIndex)
  unfolding compile_frontends
  compile_user name u index = do
    expire ← compile_expire u.expire
    frontends ← compile_frontends name u.frontends index
    ok (
      record {
        password = u.password;
        expire = expire;
        up_rate = u.up_rate;
        down_rate = u.down_rate;
        max_connections = u.max_connections;
        policy = u.policy;
        frontends = frontends.0;
      },
      frontends.1,
    )

  unfoldable pub compile_users :
      {P : Type 0}
      → List (Text × P)
      → List (Text × RawUser)
      → FrontendIndex
      → Result CompileError (List (Text × User Date) × FrontendIndex)
  unfolding compile_user trim
  compile_users policies [] index = ok ([], index)
  compile_users policies ((name, u) ∷ us) index = do
    _ ← ensure (not (is_empty (trim u.policy))) CompileError.policy_required
    _ ← ensure (has_key policies u.policy) CompileError.unknown_policy
    user ← compile_user name u index
    rest ← compile_users policies us user.1
    ok ((name, user.0) ∷ rest.0, rest.1)

module _ {Book Selector Date : Type 0} (allocation : Selector → ℕ × ℕ)
    (parse_date : Text → Option Date) (x : IpText) (bk : Books Book Selector) where
  unfoldable pub compile_checked :
      RawSnapshot → Text → Option Book → Result CompileError (Snapshot Book Selector Date)
  unfolding schema_version_supported override_for compile_egresses compile_policies compile_users
  compile_checked raw node_id book = do
    _ ←
        ensure (schema_version_supported raw.schema_version max_supported_schema_version)
          CompileError.unsupported_schema
    _ ← ensure (raw.schema_version == schema_version_current) CompileError.wrong_schema
    _ ← ensure (leb (length raw.users) max_users) CompileError.too_many_users
    _ ← ensure (leb (length raw.routing_policies) max_policies) CompileError.too_many_policies
    _ ← ensure (leb (length raw.node_overrides) max_node_overrides) CompileError.too_many_overrides
    raw_egresses ← override_for raw.node_overrides node_id raw.egresses
    _ ← ensure (leb (length raw_egresses) max_egresses) CompileError.too_many_egresses
    egresses ← compile_egresses raw_egresses
    policies ←
        compile_policies allocation x bk book egresses raw.routing_policies
          record { rules = 0; allocations = []; bytes = 0 }
    users ← compile_users parse_date policies raw.users []
    ok record {
      version = raw.version;
      schema_version = raw.schema_version;
      users = users.0;
      policies = policies;
      frontend_index = users.1;
    }
