-- ===== src/Model/Decide.antt =====
-- Deciding what to do with a connection, `Snapshot::decide_with_sniff` of src/model.rs.
pub mod Veto
use rove.Base.{ℕ}
use rove.Base.{Bool, true, false, Option, none, some}
use rove.Base.{if◌then◌else◌}
use rove.Base.Eq.{nat_eq, list_eq}
use rove.Base.Text.{Text, to_ascii_lowercase}
use rove.Base.Assoc.{find}
use rove.Policy.Ip.{IpText}
use rove.Policy.Rules.{Books}
use rove.Model.Egress.{
  Upstream, Chain, Egress, via_upstream, via_chain, RouteAction, to_egress, go_direct, go_block,
}
use rove.Model.Policy.{RoutingPolicy, first_route}
use rove.Model.Snapshot.{Snapshot, User}

pub data Decision : Type 0 where
  direct : Decision
  via : Upstream → Decision
  via_members : Chain → Decision
  block : Decision

abbrev pub egress_decision : Egress → Decision
egress_decision e = elim (e.kind) [ via_upstream up ↦ via up | via_chain ch ↦ via_members ch ]

unfoldable pub route_action_decision : RouteAction → Decision
route_action_decision (to_egress e) = egress_decision e
route_action_decision go_direct = direct
route_action_decision go_block = block

pub record PolicyAttribution : Type 0 where
  pub effective_policy_host : Text
  pub policy_id : Option Text
  pub matched_route : Option ℕ

pub record ResolvedDecision : Type 0 where
  pub decision : Decision
  pub effective_policy_host : Text
  pub snapshot_version : ℕ
  pub policy_id : Option Text
  pub matched_route : Option ℕ

unfoldable pub attribution : ResolvedDecision → PolicyAttribution
attribution r = record {
  effective_policy_host = r.effective_policy_host;
  policy_id = r.policy_id;
  matched_route = r.matched_route;
}

abbrev pub is_block : RouteAction → Bool
is_block (to_egress e) = false
is_block go_direct = false
is_block go_block = true

abbrev pub unattributed_block : ℕ → Text → ResolvedDecision
unattributed_block version host = record {
  decision = block;
  effective_policy_host = host;
  snapshot_version = version;
  policy_id = none;
  matched_route = none;
}

abbrev pub resolved : ℕ → Text → Decision → Text → Option ℕ → ResolvedDecision
resolved version policy decision host matched = record {
  decision = decision;
  effective_policy_host = host;
  snapshot_version = version;
  policy_id = some policy;
  matched_route = matched;
}

-- The end of `decide_with_sniff`: the requested host's route, or else the default.
unfoldable pub by_request :
    ℕ → Text → Option (ℕ × RouteAction) → RouteAction → Text → ResolvedDecision
unfolding route_action_decision
by_request version policy (some (idx, action)) default_action host =
    resolved version policy (route_action_decision action) host (some idx)
by_request version policy none default_action host =
    resolved version policy (route_action_decision default_action) host none

-- After the requested host's veto, with the route of the sniffed host.
unfoldable pub by_sniffed :
    ℕ
    → Text
    → Bool
    → Option (ℕ × RouteAction)
    → Option (Text × Option (ℕ × RouteAction))
    → RouteAction
    → Text
    → ResolvedDecision
unfolding by_request route_action_decision
by_sniffed version policy is_ip requested (some (host, some (idx, action))) default_action
      requested_host =
    if is_block action
    then resolved version policy block host (some idx)
    else (if is_ip
        then resolved version policy (route_action_decision action) host (some idx)
        else by_request version policy requested default_action requested_host)
by_sniffed version policy is_ip requested (some (host, none)) default_action requested_host =
    by_request version policy requested default_action requested_host
by_sniffed version policy is_ip requested none default_action requested_host =
    by_request version policy requested default_action requested_host

abbrev pub with_veto :
    ℕ → Text → Option (ℕ × RouteAction) → Text → ResolvedDecision → ResolvedDecision
with_veto version policy none host r = r
with_veto version policy (some (idx, action)) host r =
    if is_block action then resolved version policy block host (some idx) else r

abbrev pub is_ip_host : IpText → Text → Bool
is_ip_host x host = elim (x.parse_ip host) [ none ↦ false | some addr ↦ true ]

module _ {Book Selector : Type 0} (x : IpText) (bk : Books Book Selector) where
  abbrev pub sniffed_route :
      RoutingPolicy Book Selector → Option Text → Option (Text × Option (ℕ × RouteAction))
  unfolding first_route
  sniffed_route p none = none
  sniffed_route p (some host) = some (host, first_route x bk p host)

  abbrev pub decide_in :
      ℕ → Text → RoutingPolicy Book Selector → Text → Option Text → ResolvedDecision
  unfolding first_route by_sniffed
  decide_in version policy p requested_host sniffed_host =
      with_veto version policy (first_route x bk p requested_host) requested_host (
        by_sniffed version policy (is_ip_host x requested_host) (first_route x bk p requested_host)
          (sniffed_route p sniffed_host) p.default_action requested_host)

module _ {Book Selector Date : Type 0} (x : IpText) (bk : Books Book Selector) where
  unfoldable pub decide_with_sniff :
      Snapshot Book Selector Date → Text → Text → Option Text → ResolvedDecision
  unfolding find
  decide_with_sniff s username requested_host sniffed_host = elim (find s.users username) [
    | none ↦ unattributed_block s.version requested_host
    | some user ↦ elim (find s.policies user.policy) [
      | none ↦ unattributed_block s.version requested_host
      | some p ↦ decide_in x bk s.version user.policy p requested_host sniffed_host
    ]
  ]

  unfoldable pub decide : Snapshot Book Selector Date → Text → Text → Decision
  unfolding decide_with_sniff
  decide s username host = (decide_with_sniff s username host none).decision

-- `Snapshot::frontend_user`
unfoldable pub frontend_user :
    {Book Selector Date : Type 0}
    → Snapshot Book Selector Date
    → Text
    → Text
    → Option (Text × User Date)
unfolding find to_ascii_lowercase
frontend_user s protocol key = elim (find s.frontend_index protocol) [
  | none ↦ none
  | some keys ↦ elim (find keys (to_ascii_lowercase key)) [
    | none ↦ none
    | some name ↦ elim (find s.users name) [ none ↦ none | some u ↦ some (name, u) ]
  ]
]
