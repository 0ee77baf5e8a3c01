-- ===== src/Model/View.antt =====
-- The inspection views of src/model.rs.
pub mod Redact
use rove.Base.{ℕ}
use rove.Base.{Bool, false, not, ◌||◌, Option, none, some, List, map}
use rove.Base.Eq.{nat_eq, list_eq}
use rove.Base.Bytes.{ascii}
use rove.Base.Text.{Text}
use rove.Base.Assoc.{find}
use rove.Model.Raw.{is_none}
use rove.Model.Egress.{
  UpstreamKind, http, socks5, reverse_hop, subnetra, Upstream, Chain, ChainMember, Egress,
  via_upstream, via_chain, RouteAction, to_egress, go_direct, go_block,
}
use rove.Model.Policy.{Route, RoutingPolicy}
use rove.Model.Snapshot.{User, Snapshot}

abbrev pub upstream_kind_name : UpstreamKind → Text
upstream_kind_name http = ascii "http"
upstream_kind_name socks5 = ascii "socks5"
upstream_kind_name reverse_hop = ascii "reverse"
upstream_kind_name subnetra = ascii "subnetra"

pub record ChainMemberView : Type 0 where
  pub id : Text
  pub priority : ℕ
  pub kind : Text
  pub addr : Text
  pub tls : Bool
  pub auth : Bool

pub record UpstreamView : Type 0 where
  pub kind : Text
  pub addr : Text
  pub tls : Bool
  pub auth : Bool
  pub members : Option (List ChainMemberView)

abbrev pub needs_auth : Upstream → Bool
needs_auth u = not (is_none u.username) || not (is_none u.password)

unfoldable pub member_view : ChainMember → ChainMemberView
member_view m = record {
  id = m.id;
  priority = m.priority;
  kind = upstream_kind_name m.upstream.kind;
  addr = m.upstream.addr;
  tls = m.upstream.tls;
  auth = needs_auth m.upstream;
}

unfoldable pub chain_view : Chain → UpstreamView
unfolding member_view
chain_view c = record {
  kind = ascii "chain";
  addr = c.id;
  tls = false;
  auth = false;
  members = some (map member_view c.members);
}

unfoldable pub upstream_view : Upstream → UpstreamView
upstream_view u = record {
  kind = upstream_kind_name u.kind;
  addr = u.addr;
  tls = u.tls;
  auth = needs_auth u;
  members = none;
}

pub record EgressView : Type 0 where
  pub id : Text
  pub upstream : UpstreamView

unfoldable pub egress_view : Egress → EgressView
unfolding upstream_view chain_view
egress_view e = record {
  id = e.id;
  upstream = elim (e.kind) [ via_upstream up ↦ upstream_view up | via_chain ch ↦ chain_view ch ];
}

pub record ActionView : Type 0 where
  pub action : Text
  pub egress : Option EgressView

unfoldable pub action_view : RouteAction → ActionView
unfolding egress_view
action_view (to_egress e) = record { action = ascii "egress"; egress = some (egress_view e) }
action_view go_direct = record { action = ascii "direct"; egress = none }
action_view go_block = record { action = ascii "block"; egress = none }

pub record RouteView : Type 0 where
  pub selectors : List Text
  pub action : ActionView

pub record RoutingPolicyView : Type 0 where
  pub id : Text
  pub routes : List RouteView
  pub default_action : ActionView

pub record UserPolicyView : Type 0 where
  pub username : Text
  pub expire : Option Text
  pub policy : Text
  pub up_rate : ℕ
  pub down_rate : ℕ
  pub max_connections : ℕ
  pub routing_policy : Option RoutingPolicyView

module _ {Book Selector : Type 0} where
  abbrev pub route_view : Route Book Selector → RouteView
  unfolding action_view
  route_view r = record { selectors = r.selector_rules; action = action_view r.action }

  unfoldable pub routing_policy_view : Text → RoutingPolicy Book Selector → RoutingPolicyView
  unfolding action_view
  routing_policy_view id p = record {
    id = id;
    routes = map route_view p.routes;
    default_action = action_view p.default_action;
  }

abbrev pub bound_view :
    {Book Selector : Type 0}
    → Text
    → Option (RoutingPolicy Book Selector)
    → Option RoutingPolicyView
bound_view id none = none
bound_view id (some p) = some (routing_policy_view id p)

abbrev pub shown_date : {Date : Type 0} → (Date → Text) → Option Date → Option Text
shown_date format_date none = none
shown_date format_date (some d) = some (format_date d)

module _ {Book Selector Date : Type 0} (format_date : Date → Text) where
  abbrev pub user_view :
      List (Text × RoutingPolicy Book Selector) → Text → Option (User Date) → Option UserPolicyView
  user_view policies username none = none
  user_view policies username (some u) = some record {
    username = username;
    expire = shown_date format_date u.expire;
    policy = u.policy;
    up_rate = u.up_rate;
    down_rate = u.down_rate;
    max_connections = u.max_connections;
    routing_policy = bound_view u.policy (find policies u.policy);
  }

  -- `Snapshot::user_policy`; chrono prints the date.
  unfoldable pub user_policy : Snapshot Book Selector Date → Text → Option UserPolicyView
  unfolding find
  user_policy s username = user_view s.policies username (find s.users username)
