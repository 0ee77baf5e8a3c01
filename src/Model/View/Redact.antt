-- ===== src/Model/View/Redact.antt =====
-- What the inspection view of a user's policy depends on, `user_policy` of src/model.rs.
use rove.Base.{◌≡◌, refl, ap, ◌∙◌, false, Option, none, some, List, [], ◌∷◌, map, arith}
use rove.Base.Eq.{nat_eq, list_eq}
use rove.Base.Text.{Text}
use rove.Base.Assoc.{find}
use rove.Model.Raw.{is_none}
use rove.Model.Egress.{
  Upstream, Chain, ChainMember, EgressKind, via_upstream, via_chain, RouteAction, to_egress,
  go_direct, go_block,
}
use rove.Model.Policy.{Route, RoutingPolicy}
use rove.Model.Snapshot.{Snapshot, User}
use rove.Model.View.{
  bound_view, shown_date, user_view, upstream_view, chain_view, member_view, egress_view,
  action_view, route_view, routing_policy_view, user_policy,
}

-- Credentials made empty, but not taken away: whether there are some is shown.
hidden : Option Text → Option Text
hidden none = none
hidden (some s) = some []

redact_upstream : Upstream → Upstream
redact_upstream u = record u {
  username = hidden u.username;
  password = hidden u.password;
  skip_cert_verify = false;
}

redact_member : ChainMember → ChainMember
redact_member m = record m { upstream = redact_upstream m.upstream }

redact_kind : EgressKind → EgressKind
redact_kind (via_upstream up) = via_upstream (redact_upstream up)
redact_kind (via_chain ch) = via_chain (record ch { members = map redact_member ch.members })

redact_action : RouteAction → RouteAction
redact_action (to_egress e) = to_egress (record e { kind = redact_kind e.kind })
redact_action go_direct = go_direct
redact_action go_block = go_block

is_none-hidden : (o : Option Text) → is_none (hidden o) ≡ is_none o
unfolding hidden
is_none-hidden none = refl
is_none-hidden (some s) = refl

upstream_view-redact : (u : Upstream) → upstream_view (redact_upstream u) ≡ upstream_view u
unfolding upstream_view redact_upstream
upstream_view-redact u = ground (arith, is_none-hidden u.username, is_none-hidden u.password)

member_view-redact : (m : ChainMember) → member_view (redact_member m) ≡ member_view m
unfolding member_view redact_member redact_upstream
member_view-redact m =
    ground (arith, is_none-hidden m.upstream.username, is_none-hidden m.upstream.password)

map_after :
    {A B : Type 0} (f : A → A) (g : A → B) (as' : List A)
    → ((a : A) → g (f a) ≡ g a)
    → map g (map f as') ≡ map g as'
map_after f g [] h = refl
map_after f g (a ∷ as') h = ground (arith, h a, map_after f g as' h)

chain_view-redact :
    (c : Chain) → chain_view (record c { members = map redact_member c.members }) ≡ chain_view c
unfolding chain_view
chain_view-redact c =
    ground (arith, map_after redact_member member_view c.members member_view-redact)

kind_view-redact :
    (id : Text) (k : EgressKind)
    → egress_view (record { id = id; kind = redact_kind k })
      ≡ egress_view (record { id = id; kind = k })
unfolding egress_view redact_kind
kind_view-redact id (via_upstream up) = ground (arith, upstream_view-redact up)
kind_view-redact id (via_chain ch) = ground (arith, chain_view-redact ch)

action_view-redact : (a : RouteAction) → action_view (redact_action a) ≡ action_view a
unfolding action_view redact_action
action_view-redact (to_egress e) = ground (arith, kind_view-redact e.id e.kind)
action_view-redact go_direct = refl
action_view-redact go_block = refl

module _ {Book Selector : Type 0} where
  redact_route : Route Book Selector → Route Book Selector
  redact_route r = record r { action = redact_action r.action }

  redact_policy : RoutingPolicy Book Selector → RoutingPolicy Book Selector
  redact_policy p = record p {
    routes = map redact_route p.routes;
    default_action = redact_action p.default_action;
  }

  route_view-redact : (r : Route Book Selector) → route_view (redact_route r) ≡ route_view r
  unfolding route_view redact_route
  route_view-redact r = ground (arith, action_view-redact r.action)

  routing_policy_view-redact :
      (id : Text) (p : RoutingPolicy Book Selector)
      → routing_policy_view id (redact_policy p) ≡ routing_policy_view id p
  unfolding routing_policy_view redact_policy
  routing_policy_view-redact id p = ground (
    arith,
    map_after redact_route route_view p.routes route_view-redact,
    action_view-redact p.default_action,
  )

redact_values : {V W : Type 0} → (V → W) → List (Text × V) → List (Text × W)
redact_values f [] = []
redact_values f ((k, v) ∷ m) = (k, f v) ∷ redact_values f m

redacted : {V W : Type 0} → (V → W) → Option V → Option W
redacted f none = none
redacted f (some v) = some (f v)

find-redact_values :
    {V W : Type 0} (f : V → W) (m : List (Text × V)) (key : Text)
    → find (redact_values f m) key ≡ redacted f (find m key)
unfolding find redact_values redacted
find-redact_values f [] key = refl
find-redact_values f ((k, v) ∷ m) key = ground (arith, find-redact_values f m key)

redact_user : {Date : Type 0} → User Date → User Date
redact_user u = record u { password = []; frontends = [] }

module _ {Book Selector : Type 0} where
  by_policy :
      (id : Text) (o : Option (RoutingPolicy Book Selector))
      → bound_view id (redacted redact_policy o) ≡ bound_view id o
  unfolding redacted
  by_policy id none = refl
  by_policy id (some p) = ap some (routing_policy_view-redact id p)

module _ {Book Selector Date : Type 0} where
  -- The snapshot without the passwords of its users and the credentials of its upstreams.
  pub redact : Snapshot Book Selector Date → Snapshot Book Selector Date
  redact s = record s {
    users = redact_values redact_user s.users;
    policies = redact_values redact_policy s.policies;
    frontend_index = [];
  }

  by_user :
      (format_date : Date → Text) (policies : List (Text × RoutingPolicy Book Selector))
      (name : Text) (o : Option (User Date))
      → user_view format_date (redact_values redact_policy policies) name (redacted redact_user o)
        ≡ user_view format_date policies name o
  unfolding redacted redact_user
  by_user format_date policies name none = refl
  by_user format_date policies name (some u) =
      ap
        (λ v. some record {
          username = name;
          expire = shown_date format_date u.expire;
          policy = u.policy;
          up_rate = u.up_rate;
          down_rate = u.down_rate;
          max_connections = u.max_connections;
          routing_policy = v;
        })
        (ap (bound_view u.policy) (find-redact_values redact_policy policies u.policy)
          ∙ by_policy u.policy (find policies u.policy))

  -- The view of a user's policy shows no password of a user or an upstream and no front-end
  -- credential: it is the same when all of them are made empty. Only whether an upstream has
  -- credentials is shown.
  pub user_policy-redact :
      (format_date : Date → Text) (s : Snapshot Book Selector Date) (name : Text)
      → user_policy format_date (redact s) name ≡ user_policy format_date s name
  unfolding user_policy redact redact_user
  user_policy-redact format_date s name =
      ap (user_view format_date (redact_values redact_policy s.policies) name)
        (find-redact_values redact_user s.users name)
      ∙ by_user format_date s.policies name (find s.users name)
