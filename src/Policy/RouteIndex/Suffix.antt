-- ===== src/Policy/RouteIndex/Suffix.antt =====
-- A trie's walk as a search through the prefixes of a path.
use rove.Base.{ℕ, min}
use rove.Base.{
  ◌≡◌, refl, sym, ap, ◌∙◌, Bool, true, false, ◌||◌, Option, none, some, List, [], ◌∷◌, arith,
}
use rove.Base.{if◌then◌else◌}
use rove.Base.Eq.{nat_eq, list_eq}
use rove.Base.Text.{Text}
use rove.Policy.Trie.{Trie, node, get_child}
use rove.Net.{ip_eq}
use rove.Policy.Trie.{value_at}
use rove.Policy.Trie.Update.{value_child, value_at-cons}
use rove.Policy.Domain.{walk}
use rove.Policy.RouteIndex.{best_below, or_better, no_route, map_or_min}

-- Whether a prefix of the path passes the test, the empty one left out.
abbrev pub any_prefix : (List Text → Bool) → List Text → Bool
any_prefix f [] = false
any_prefix f (l ∷ ls) = f (l ∷ []) || any_prefix (λ p. f (l ∷ p)) ls

abbrev pub least_prefix : (List Text → ℕ) → List Text → ℕ
least_prefix f [] = no_route
least_prefix f (l ∷ ls) = min (f (l ∷ [])) (least_prefix (λ p. f (l ∷ p)) ls)

any_prefix-false :
    (f : List Text → Bool) (ls : List Text)
    → ((p : List Text) → f p ≡ false)
    → any_prefix f ls ≡ false
any_prefix-false f [] h = refl
any_prefix-false f (l ∷ ls) h =
    ground (arith, h (l ∷ []), any_prefix-false (λ p. f (l ∷ p)) ls (λ p. h (l ∷ p)))

pub any_prefix-cong :
    (f g : List Text → Bool) (ls : List Text)
    → ((p : List Text) → f p ≡ g p)
    → any_prefix f ls ≡ any_prefix g ls
any_prefix-cong f g [] h = refl
any_prefix-cong f g (l ∷ ls) h =
    ground
      (arith, h (l ∷ []), any_prefix-cong (λ p. f (l ∷ p)) (λ p. g (l ∷ p)) ls (λ p. h (l ∷ p)))

least_prefix-top :
    (f : List Text → ℕ) (ls : List Text)
    → ((p : List Text) → f p ≡ no_route)
    → least_prefix f ls ≡ no_route
least_prefix-top f [] h = refl
least_prefix-top f (l ∷ ls) h =
    ground (arith, h (l ∷ []), least_prefix-top (λ p. f (l ∷ p)) ls (λ p. h (l ∷ p)))

-- A route that is noted at the paths that pass `b` counts just when a prefix passes.
pub least_prefix-noted :
    (b : List Text → Bool) (idx : ℕ) (f g : List Text → ℕ) (ls : List Text)
    → ((p : List Text) → g p ≡ (if b p then min idx (f p) else f p))
    → least_prefix g ls
      ≡ (if any_prefix b ls then min idx (least_prefix f ls) else least_prefix f ls)
least_prefix-noted b idx f g [] h = refl
least_prefix-noted b idx f g (l ∷ ls) h = ground (
  arith,
  h (l ∷ []),
  least_prefix-noted (λ p. b (l ∷ p)) idx (λ p. f (l ∷ p)) (λ p. g (l ∷ p)) ls (λ p. h (l ∷ p)),
)

least_prefix-cong :
    (f g : List Text → ℕ) (ls : List Text)
    → ((p : List Text) → f p ≡ g p)
    → least_prefix f ls ≡ least_prefix g ls
least_prefix-cong f g [] h = refl
least_prefix-cong f g (l ∷ ls) h =
    ground
      (arith, h (l ∷ []), least_prefix-cong (λ p. f (l ∷ p)) (λ p. g (l ∷ p)) ls (λ p. h (l ∷ p)))

walk_below :
    (matched : Bool) (ls : List Text)
    → ((t : Trie Bool) (m : Bool) → walk t ls m ≡ (m || any_prefix (λ p. value_at false p t) ls))
    → (o : Option (Trie Bool))
    → (elim o [
      | none ↦ matched
      | some (node w ds) ↦ walk (node w ds) ls (if w then true else matched)
    ])
      ≡ (matched || (value_child false [] o || any_prefix (λ p. value_child false p o) ls))
unfolding value_child value_at
walk_below matched ls ih none = ground (arith, any_prefix-false (λ p. false) ls (λ p. refl))
walk_below matched ls ih (some (node w ds)) =
    ground (arith, ih (node w ds) (if w then true else matched))

pub walk-any_prefix :
    (t : Trie Bool) (ls : List Text) (matched : Bool)
    → walk t ls matched ≡ (matched || any_prefix (λ p. value_at false p t) ls)
unfolding walk
walk-any_prefix (node v cs) [] matched = ground arith
walk-any_prefix (node v cs) (l ∷ ls) matched =
    walk_below matched ls (λ t m. walk-any_prefix t ls m) (get_child l cs)
    ∙ ap (λ b. matched || b)
        (ground (
          arith,
          value_at-cons false l [] v cs,
          any_prefix-cong (λ p. value_child false p (get_child l cs))
              (λ p. value_at false (l ∷ p) (node v cs)) ls
              (λ p. sym (value_at-cons false l p v cs)),
        ))

abbrev pub or_none : Option ℕ → ℕ
or_none = or_better no_route

-- The route that a path of the index leads to, `no_route` for none.
abbrev pub path_route : Trie (Option ℕ) → List Text → ℕ
path_route t p = or_none (value_at none p t)

abbrev met : Option ℕ → Option ℕ → Option ℕ
unfolding map_or_min
met best w = elim w [ none ↦ best | some idx ↦ map_or_min best idx ]

or_none-met : (w best : Option ℕ) → or_none (met best w) ≡ min (or_none best) (or_none w)
unfolding met map_or_min
or_none-met none none = omega arith
or_none-met none (some i) = omega arith
or_none-met (some j) none = omega arith
or_none-met (some j) (some i) = omega arith

best_below_child :
    (best : Option ℕ) (ls : List Text)
    → ((t : Trie (Option ℕ)) (m : Option ℕ)
        → or_none (best_below t ls m) ≡ min (or_none m) (least_prefix (path_route t) ls))
    → (o : Option (Trie (Option ℕ)))
    → or_none (elim o [ none ↦ best | some (node w ds) ↦ best_below (node w ds) ls (met best w) ])
      ≡ min (or_none best) (
          min
            (or_none (value_child none [] o))
            (least_prefix (λ p. or_none (value_child none p o)) ls))
unfolding value_child value_at
best_below_child none ls ih none = ground (arith, least_prefix-top (λ p. no_route) ls (λ p. refl))
best_below_child (some i) ls ih none =
    ground (arith, least_prefix-top (λ p. no_route) ls (λ p. refl))
best_below_child best ls ih (some (node w ds)) =
    ih (node w ds) (met best w) ∙ ground (arith, or_none-met w best)

pub best_below-least_prefix :
    (t : Trie (Option ℕ)) (ls : List Text) (best : Option ℕ)
    → or_none (best_below t ls best) ≡ min (or_none best) (least_prefix (path_route t) ls)
unfolding best_below met
best_below-least_prefix (node v cs) [] none = omega arith
best_below-least_prefix (node v cs) [] (some i) = omega arith
best_below-least_prefix (node v cs) (l ∷ ls) best =
    best_below_child best ls (λ t m. best_below-least_prefix t ls m) (get_child l cs)
    ∙ ap (min (or_none best)) (
        ground (
          arith,
          value_at-cons none l [] v cs,
          least_prefix-cong (λ p. or_none (value_child none p (get_child l cs)))
              (λ p. or_none (value_at none (l ∷ p) (node v cs))) ls
              (λ p. ap or_none (sym (value_at-cons none l p v cs))),
        ))
