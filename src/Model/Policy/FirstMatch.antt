-- ===== src/Model/Policy/FirstMatch.antt =====
-- The index of a routing policy and the search through its routes in order, src/model.rs.
use rove.Base.{ℕ, suc, ◌+◌, ◌-◌, ◌%◌, ◌^◌, ◌≤◌, ◌<◌, min}
use rove.Base.{
  ◌≡◌, refl, ap, ◌∙◌, inl, inr, Bool, true, false, Option, none, some, List, [], ◌∷◌, arith,
}
use rove.Base.{◌==◌, if◌then◌else◌, Bool-cases}
use rove.Base.{length, get_elem?, All}
use rove.Base.Eq.{nat_eq, list_eq}
use rove.Base.Text.{Text}
use rove.Policy.Ip.{IpText}
use rove.Policy.Rules.{Books, matches}
use rove.Policy.RouteIndex.{RouteIndex, empty_index, index_into, first_match}
use rove.Model.Egress.{RouteAction}
use rove.Model.Policy.{Route, from_routes, first_route, first_naive, index_routes, action_at}
use rove.Policy.RouteIndex.{no_route, best_route}
use rove.Policy.RouteIndex.FirstMatch.{
  best_route-bound, best_route-empty_index, best_route-index_into,
}
use rove.Policy.Rules.Built.{AreBuilt}

module _ {Book Selector : Type 0} (x : IpText) (bk : Books Book Selector) where
  abbrev pub RoutesAreBuilt : List (Route Book Selector) → Type 0
  RoutesAreBuilt = All (λ (r : Route Book Selector). AreBuilt r.selectors.domains)

  -- The first route that matches from `idx` on, `no_route` for none.
  abbrev first_index : List (Route Book Selector) → ℕ → Text → ℕ
  first_index [] idx host = no_route
  first_index (r ∷ rs) idx host =
      if matches x bk r.selectors host then idx else first_index rs (idx + 1) host

  first_index-above :
      (rs : List (Route Book Selector)) (idx : ℕ) (host : Text)
      → idx + length rs ≤ no_route
      → idx ≤ first_index rs idx host
  first_index-above [] idx host h = ground (arith, h)
  first_index-above (r ∷ rs) idx host h = ground (arith, h, first_index-above rs (idx + 1) host)

  first_index-bound :
      (rs : List (Route Book Selector)) (idx : ℕ) (host : Text)
      → idx + length rs ≤ no_route
      → first_index rs idx host ≤ no_route
  first_index-bound [] idx host h = omega arith
  first_index-bound (r ∷ rs) idx host h = ground (arith, h, first_index-bound rs (idx + 1) host)

  best_route-index_routes :
      (rs : List (Route Book Selector)) (idx : ℕ) (ix : RouteIndex Book Selector) (host : Text)
      → RoutesAreBuilt rs
      → idx + length rs ≤ no_route
      → best_route x bk (index_routes rs idx ix) host
        ≡ min (best_route x bk ix host) (first_index rs idx host)
  unfolding index_routes
  best_route-index_routes [] idx ix host b h = ground (arith, best_route-bound x bk ix host)
  best_route-index_routes (r ∷ rs) idx ix host (b, bs) h =
      let narrow : idx % 2 ^ 32 ≡ idx = omega (arith, h) in
      best_route-index_routes rs (idx + 1) (index_into r.selectors (idx % 2 ^ 32) ix) host bs
        (omega (arith, h))
      ∙ ap
          (λ i.
            min (best_route x bk (index_into r.selectors i ix) host)
              (first_index rs (idx + 1) host))
          narrow
      ∙ ground (
        arith,
        best_route-index_into x bk r.selectors idx ix (omega (arith, h)) b host,
        first_index-above rs (idx + 1) host,
        h,
      )

  -- The route at index `i` of a list that starts at `idx`.
  abbrev at_offset : List (Route Book Selector) → ℕ → ℕ → Option (ℕ × RouteAction)
  at_offset rs idx i = elim (get_elem? rs (i - idx)) [ none ↦ none | some r ↦ some (i, r.action) ]

  abbrev found_at : List (Route Book Selector) → ℕ → ℕ → Option (ℕ × RouteAction)
  found_at rs idx i = if i == no_route then none else at_offset rs idx i

  found_at-later :
      (r : Route Book Selector) (rs : List (Route Book Selector)) (idx i : ℕ)
      → idx + 1 ≤ i
      → found_at (r ∷ rs) idx i ≡ found_at rs (idx + 1) i
  found_at-later r rs idx i h =
      let step : i - idx ≡ suc (i - (idx + 1)) = omega (arith, h) in
      rw (step, found_at, at_offset) refl

  found_at-front :
      (r : Route Book Selector) (rs : List (Route Book Selector)) (idx : ℕ)
      → idx + 1 ≤ no_route
      → found_at (r ∷ rs) idx idx ≡ some (idx, r.action)
  found_at-front r rs idx h =
      let inside : (idx == no_route) ≡ false = ground (arith, h) in
      let front : idx - idx ≡ 0 = omega arith in rw (found_at, inside, at_offset, front) refl

  -- What `first_route` makes of the best route.
  abbrev found : List (Route Book Selector) → ℕ → Option (ℕ × RouteAction)
  found rs i = elim (if i == no_route then none else some i) [
    | none ↦ none
    | some idx ↦ action_at rs idx
  ]

  found-found_at : (rs : List (Route Book Selector)) (i : ℕ) → found rs i ≡ found_at rs 0 i
  found-found_at rs i = by_test (i == no_route)
    where
      by_test :
          (b : Bool)
          → (elim (if b then none else some i) as (λ _. Option (ℕ × RouteAction)) [
            | none ↦ none
            | some idx ↦ action_at rs idx
          ])
            ≡ (if b then none else at_offset rs 0 i)
      by_test true = refl
      by_test false = let from_zero : i - 0 ≡ i = omega arith in rw (at_offset, from_zero) refl

  found_at-first_index :
      (rs : List (Route Book Selector)) (idx : ℕ) (host : Text)
      → idx + length rs ≤ no_route
      → found_at rs idx (first_index rs idx host) ≡ first_naive x bk rs idx host
  unfolding first_naive
  found_at-first_index [] idx host h = refl
  found_at-first_index (r ∷ rs) idx host h = elim (Bool-cases (matches x bk r.selectors host)) [
    | inl hit ↦
        let first : first_index (r ∷ rs) idx host ≡ idx = rw hit refl in
        ap (found_at (r ∷ rs) idx) first ∙ found_at-front r rs idx (omega (arith, h)) ∙ rw hit refl
    | inr miss ↦ rw miss (
        found_at-later r rs idx (first_index rs (idx + 1) host)
          (first_index-above rs (idx + 1) host (omega (arith, h)))
        ∙ found_at-first_index rs (idx + 1) host (omega (arith, h)))
  ]

  -- The index of a policy answers as the search through its routes in order does: the first route
  -- that matches a host is found, with its number, for any policy of fewer than `2 ^ 32` routes
  -- whose rule sets are built from rules.
  pub first_route-first_naive :
      (rs : List (Route Book Selector)) (default_action : RouteAction) (host : Text)
      → RoutesAreBuilt rs
      → length rs < 2 ^ 32
      → first_route x bk (from_routes rs default_action) host ≡ first_naive x bk rs 0 host
  unfolding first_route from_routes first_match
  first_route-first_naive rs default_action host b h =
      ap (found rs) (
        best_route-index_routes rs 0 empty_index host b (omega (arith, h))
        ∙ ground (
          arith,
          best_route-empty_index x bk host,
          first_index-bound rs 0 host (omega (arith, h)),
        ))
      ∙ found-found_at rs (first_index rs 0 host)
      ∙ found_at-first_index rs 0 host (omega (arith, h))
