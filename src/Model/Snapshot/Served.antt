-- ===== src/Model/Snapshot/Served.antt =====
-- The policies that `compile_checked` of src/model.rs makes, and their indexes.
use rove.Base.{ℕ}
use rove.Base.{◌≡◌, refl, ◌⊎◌, inl, inr, Bool, true, false, not, Option, some, List, [], ◌∷◌, arith}
use rove.Base.{ltb, leb, if◌then◌else◌}
use rove.Base.{length, All}
use rove.Base.Eq.{nat_eq, list_eq}
use rove.Base.Text.{Text, is_empty, trim}
use rove.Base.Result.{Result, ok, err, ◌>>=◌, ensure}
use rove.Policy.Ip.{IpText}
use rove.Base.{none}
use rove.Base.Eq.{member}
use rove.Policy.Rules.{Books, BookRules, RuleSet, RuleError, from_rules}
use rove.Model.Raw.{RawRoute}
use rove.Model.Egress.{Egress, RouteAction, compile_action, CompileError}
use rove.Model.Policy.{Route, RoutingPolicy}
use rove.Base.Result.{Holds}
use rove.Model.Snapshot.{
  count_selectors, saturating_add, max_rules, max_selector_bytes, account_book_selector,
  compile_routes, compile_policies, compile_selectors, Totals,
}
use rove.Model.Policy.FirstMatch.{RoutesAreBuilt}
use rove.Policy.Rules.Built.{AreBuilt, from_rules-AreBuilt, SetIsBuilt}
use rove.Base.{◌+◌, ◌≤◌, ◌<◌, ◌^◌}
use rove.Model.Raw.{RawRoutingPolicy}
use rove.Model.Snapshot.{compile_default}
use rove.Model.Policy.{first_route, first_naive, from_routes}
use rove.Model.Policy.FirstMatch.{first_route-first_naive}

module _ {Book Selector : Type 0} (allocation : Selector → ℕ × ℕ) (x : IpText)
    (bk : Books Book Selector) (book : Option Book) where
  compile_selectors-AreBuilt :
      (rules : List Text)
      → Holds
          (λ (rs : RuleSet Book Selector). AreBuilt rs.domains)
          (compile_selectors x bk book rules)
  unfolding compile_selectors
  compile_selectors-AreBuilt rules =
      built (from_rules x bk rules book) (from_rules-AreBuilt x bk rules book)
    where
      built :
          (r : RuleError ⊎ RuleSet Book Selector)
          → SetIsBuilt x bk r
          → Holds
              (λ (rs : RuleSet Book Selector). AreBuilt rs.domains)
              (elim r as (λ _. Result CompileError (RuleSet Book Selector)) [
                | inl e ↦ err CompileError.bad_selectors
                | inr rs ↦ ok rs
              ])
      built (inl e) h = tt
      built (inr rs) h = h

  -- Accounting for a selector's memory leaves the count of rules.
  account-rules :
      (rs : RuleSet Book Selector) (t : Totals) (limit : ℕ)
      → Holds (λ (u : Totals). u.rules ≡ t.rules) (account_book_selector allocation rs t limit)
  unfolding account_book_selector
  account-rules rs t limit = by_book (rs.book)
    where
      by_size :
          (known fits within : Bool) (a b : ℕ)
          → Holds
              (λ (u : Totals). u.rules ≡ t.rules)
              (if known then ok t else (do
                _ ← ensure fits CompileError.selector_size_overflow
                _ ← ensure within CompileError.selector_budget
                ok record t { allocations = a ∷ t.allocations; bytes = b }))
      by_size true fits within a b = refl
      by_size false false within a b = tt
      by_size false true false a b = tt
      by_size false true true a b = refl

      by_book :
          (o : Option (BookRules Book Selector))
          → Holds
              (λ (u : Totals). u.rules ≡ t.rules)
              (elim o as (λ _. Result CompileError Totals) [
                | none ↦ ok t
                | some b ↦ if member (allocation b.selector).0 t.allocations then ok t else (do
                  _ ←
                      ensure
                        (ltb (t.bytes + (allocation b.selector).1) (2 ^ 64))
                        CompileError.selector_size_overflow
                  _ ←
                      ensure
                        (leb (t.bytes + (allocation b.selector).1) limit)
                        CompileError.selector_budget
                  ok record t {
                    allocations = (allocation b.selector).0 ∷ t.allocations;
                    bytes = t.bytes + (allocation b.selector).1;
                  })
              ])
      by_book none = refl
      by_book (some b) =
          by_size (member (allocation b.selector).0 t.allocations)
            (ltb (t.bytes + (allocation b.selector).1) (2 ^ 64))
            (leb (t.bytes + (allocation b.selector).1) limit) (allocation b.selector).0
            (t.bytes + (allocation b.selector).1)

  -- The routes are built from rules, there are no more of them than rules were counted, and the count
  -- is within its limit.
  abbrev Counted : Totals → List (Route Book Selector) × Totals → Type 0
  Counted t r =
      RoutesAreBuilt x bk r.0 × (length r.0 + t.rules ≤ max_rules) × (r.1.rules ≤ max_rules)

  compile_routes-Counted :
      (egresses : List (Text × Egress)) (rs : List RawRoute) (t : Totals)
      → t.rules ≤ max_rules
      → Holds (Counted t) (compile_routes allocation x bk book egresses rs t)
  unfolding compile_routes
  compile_routes-Counted egresses [] t h = (tt, omega (arith, h), h)
  compile_routes-Counted egresses (r ∷ rs) t h =
      passed (ltb 0 (count_selectors r.selectors)) refl
        (leb (saturating_add t.rules (count_selectors r.selectors)) max_rules) refl
        (compile_selectors x bk book r.selectors) (compile_selectors-AreBuilt r.selectors)
        (λ s. account_book_selector allocation s (after_rules) max_selector_bytes)
        (λ s. account-rules s (after_rules) max_selector_bytes) (compile_action r.action egresses)
        (λ a. compile_routes allocation x bk book egresses rs a)
        (λ a. compile_routes-Counted egresses rs a)
    where
      after_rules : Totals
      after_rules = record t { rules = saturating_add t.rules (count_selectors r.selectors) }

      passed :
          (some' : Bool)
          → ltb 0 (count_selectors r.selectors) ≡ some'
          → (few : Bool)
          → leb (saturating_add t.rules (count_selectors r.selectors)) max_rules ≡ few
          → (selectors' : Result CompileError (RuleSet Book Selector))
          → Holds (λ (rs : RuleSet Book Selector). AreBuilt rs.domains) selectors'
          → (account : RuleSet Book Selector → Result CompileError Totals)
          → ((s : RuleSet Book Selector)
              → Holds
                  (λ (u : Totals). u.rules ≡ saturating_add t.rules (count_selectors r.selectors))
                  (account s))
          → (action' : Result CompileError RouteAction)
            (later : Totals → Result CompileError (List (Route Book Selector) × Totals))
          → ((a : Totals) → a.rules ≤ max_rules → Holds (Counted a) (later a))
          → Holds (Counted t) (do
            _ ← ensure some' CompileError.selector_required
            _ ← ensure few CompileError.too_many_rules
            selectors ← selectors'
            after ← account selectors
            action ← action'
            rest ← later after
            ok (
              record { selectors = selectors; selector_rules = r.selectors; action = action }
                  ∷ rest.0,
              rest.1,
            ))
      passed false e few f s g account c a later l = tt
      passed true e false f s g account c a later l = tt
      passed true e true f (err k) g account c a later l = tt
      passed true e true f (ok s) g account c a later l = counted (account s) (c s) a
        where
          ended :
              (u : Totals)
              → u.rules ≡ saturating_add t.rules (count_selectors r.selectors)
              → (a : RouteAction) (q : Result CompileError (List (Route Book Selector) × Totals))
              → Holds (Counted u) q
              → Holds (Counted t) (do
                rest ← q
                ok (
                  record { selectors = s; selector_rules = r.selectors; action = a } ∷ rest.0,
                  rest.1,
                ))
          ended u n a (err k) w = tt
          ended u n a (ok (qs, v)) (built, fits, total) =
              ((g, built), ground (arith, e, f, n, fits, h), total)

          counted :
              (after' : Result CompileError Totals)
              → Holds
                  (λ (u : Totals). u.rules ≡ saturating_add t.rules (count_selectors r.selectors))
                  after'
              → (action' : Result CompileError RouteAction)
              → Holds (Counted t) (do
                after ← after'
                action ← action'
                rest ← later after
                ok (
                  record { selectors = s; selector_rules = r.selectors; action = action } ∷ rest.0,
                  rest.1,
                ))
          counted (err k) n a = tt
          counted (ok u) n (err k) = tt
          counted (ok u) n (ok a) = ended u n a (later u) (l u (ground (arith, f, n)))

  -- The index of the policy answers as a search through its routes in order.
  abbrev pub IsServed : RoutingPolicy Book Selector → Type 0
  IsServed p = (host : Text) → first_route x bk p host ≡ first_naive x bk p.routes 0 host

  abbrev pub AreServed : List (Text × RoutingPolicy Book Selector) → Type 0
  AreServed = All (λ (e : Text × RoutingPolicy Book Selector). IsServed e.1)

  from_routes-IsServed :
      (rs : List (Route Book Selector)) (a : RouteAction)
      → RoutesAreBuilt x bk rs
      → length rs < 2 ^ 32
      → IsServed (from_routes rs a)
  unfolding from_routes
  from_routes-IsServed rs a built few host = first_route-first_naive x bk rs a host built few

  pub compile_policies-AreServed :
      (egresses : List (Text × Egress)) (ps : List (Text × RawRoutingPolicy)) (t : Totals)
      → t.rules ≤ max_rules
      → Holds AreServed (compile_policies allocation x bk book egresses ps t)
  unfolding compile_policies
  compile_policies-AreServed egresses [] t h = tt
  compile_policies-AreServed egresses ((id, raw) ∷ ps) t h =
      passed (not (is_empty (trim id))) (compile_default egresses raw.default_action)
        (compile_routes allocation x bk book egresses raw.routes t)
        (compile_routes-Counted egresses raw.routes t h)
        (λ u. compile_policies allocation x bk book egresses ps u)
        (λ u. compile_policies-AreServed egresses ps u)
    where
      passed :
          (named : Bool) (default' : Result CompileError RouteAction)
          (routes' : Result CompileError (List (Route Book Selector) × Totals))
          → Holds (Counted t) routes'
          → (later : Totals → Result CompileError (List (Text × RoutingPolicy Book Selector)))
          → ((u : Totals) → u.rules ≤ max_rules → Holds AreServed (later u))
          → Holds AreServed (do
            _ ← ensure named CompileError.policy_id_required
            default_action ← default'
            routes ← routes'
            rest ← later routes.1
            ok ((id, from_routes routes.0 default_action) ∷ rest))
      passed false d r c later l = tt
      passed true (err e) r c later l = tt
      passed true (ok a) (err e) c later l = tt
      passed true (ok a) (ok (rs, u)) (built, fits, total) later l = ended (later u) (l u total)
        where
          ended :
              (q : Result CompileError (List (Text × RoutingPolicy Book Selector)))
              → Holds AreServed q
              → Holds AreServed (do rest ← q; ok ((id, from_routes rs a) ∷ rest))
          ended (err e) s = tt
          ended (ok qs) s = (from_routes-IsServed rs a built (omega (arith, fits)), s)
