-- ===== src/Model/Policy.antt =====
-- Routing policies of src/model.rs: ordered routes with the index over them.
pub mod FirstMatch
use rove.Base.{ℕ, ◌+◌, ◌%◌, ◌^◌}
use rove.Base.{Option, none, some, List, [], ◌∷◌}
use rove.Base.{if◌then◌else◌}
use rove.Base.{get_elem?}
use rove.Base.Eq.{nat_eq, list_eq}
use rove.Base.Text.{Text}
use rove.Policy.Ip.{IpText}
use rove.Policy.Rules.{Books, RuleSet, matches}
use rove.Policy.RouteIndex.{RouteIndex, empty_index, index_into, first_match}
use rove.Model.Egress.{RouteAction}

pub record Route (Book Selector : Type 0) : Type 0 where
  pub selectors : RuleSet Book Selector
  pub selector_rules : List Text
  pub action : RouteAction

pub record RoutingPolicy (Book Selector : Type 0) : Type 0 where
  pub routes : List (Route Book Selector)
  pub default_action : RouteAction
  pub index : RouteIndex Book Selector

module _ {Book Selector : Type 0} where
  -- The loop of `from_routes` from route `idx` on, which is kept in 32 bits.
  unfoldable pub index_routes :
      List (Route Book Selector) → ℕ → RouteIndex Book Selector → RouteIndex Book Selector
  unfolding index_into
  index_routes [] idx ix = ix
  index_routes (r ∷ rs) idx ix =
      index_routes rs (idx + 1) (index_into r.selectors (idx % 2 ^ 32) ix)

  unfoldable pub from_routes :
      List (Route Book Selector) → RouteAction → RoutingPolicy Book Selector
  unfolding index_routes
  from_routes routes default_action = record {
    routes = routes;
    default_action = default_action;
    index = index_routes routes 0 empty_index;
  }

  -- `self.routes[idx].action`, where the source panics out of range.
  abbrev pub action_at : List (Route Book Selector) → ℕ → Option (ℕ × RouteAction)
  action_at routes idx = elim (get_elem? routes idx) [ none ↦ none | some r ↦ some (idx, r.action) ]

  module _ (x : IpText) (bk : Books Book Selector) where
    unfoldable pub first_route : RoutingPolicy Book Selector → Text → Option (ℕ × RouteAction)
    unfolding first_match
    first_route p host = elim (first_match x bk p.index host) [
      | none ↦ none
      | some idx ↦ action_at p.routes idx
    ]

    -- `first_match_naive`, from route `idx` on.
    unfoldable pub first_naive : List (Route Book Selector) → ℕ → Text → Option (ℕ × RouteAction)
    unfolding matches
    first_naive [] idx host = none
    first_naive (r ∷ rs) idx host =
        let rest = first_naive rs (idx + 1) host in
        if matches x bk r.selectors host then some (idx, r.action) else rest
