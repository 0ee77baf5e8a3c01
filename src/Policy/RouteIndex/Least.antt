-- ===== src/Policy/RouteIndex/Least.antt =====
-- The searches of the index as minima over the entries that hit.
use rove.Base.{ℕ, ◌≤◌, min}
use rove.Base.{◌≡◌, refl, Bool, List, [], ◌∷◌, ◌++◌, arith}
use rove.Base.{if◌then◌else◌}
use rove.Base.{any}
use rove.Base.Eq.{Eq, same, member, nat_eq, list_eq}
use rove.Net.{ip_eq}
use rove.Policy.RouteIndex.{improve, or_better, note_min, get, note_all, no_route}

-- The least route of the entries that hit, `no_route` for none.
abbrev pub least {ℓ} : {A : Type ℓ} → (A → Bool) → List (A × ℕ) → ℕ
least hits [] = no_route
least hits ((a, idx) ∷ es) = if hits a then min idx (least hits es) else least hits es

pub improve-least {ℓ} :
    {A : Type ℓ} (hits : A → Bool) (best : ℕ) (es : List (A × ℕ))
    → best ≤ no_route
    → improve hits best es ≡ min best (least hits es)
unfolding improve
improve-least hits best [] h = omega arith
improve-least hits best ((a, idx) ∷ es) h =
    ground (arith, improve-least hits best es h, improve-least hits idx es)

least-snoc {ℓ} :
    {A : Type ℓ} (hits : A → Bool) (es : List (A × ℕ)) (a : A) (idx : ℕ)
    → least hits (es ++ (a, idx) ∷ []) ≡ (if hits a then min idx (least hits es) else least hits es)
least-snoc hits [] a idx = refl
least-snoc hits ((b, i) ∷ es) a idx = ground (arith, least-snoc hits es a idx)

pub least-bound {ℓ} : {A : Type ℓ} (hits : A → Bool) (es : List (A × ℕ)) → least hits es ≤ no_route
least-bound hits [] = omega arith
least-bound hits ((b, i) ∷ es) = ground (arith, least-bound hits es)

-- Noting the route for every element of a list.
pub least-note_all {ℓ} :
    {A : Type ℓ} (hits : A → Bool) (idx : ℕ) (as' : List A) (es : List (A × ℕ))
    → least hits (note_all (λ es a. es ++ (a, idx) ∷ []) es as')
      ≡ (if any hits as' then min idx (least hits es) else least hits es)
unfolding note_all
least-note_all hits idx [] es = refl
least-note_all hits idx (a ∷ as') es =
    ground (arith, least-note_all hits idx as' (es ++ (a, idx) ∷ []), least-snoc hits es a idx)

module _ {K : Type 0} ⦃e : Eq K⦄ where
  -- The route of a key, `no_route` for none.
  abbrev pub route_of : List (K × ℕ) → K → ℕ
  route_of m key = or_better no_route (get m key)

  route_of-note_min :
      (m : List (K × ℕ)) (key : K) (idx : ℕ) (other : K)
      → idx ≤ no_route
      → route_of (note_min m key idx) other
        ≡ (if same key other then min idx (route_of m other) else route_of m other)
  unfolding note_min get
  route_of-note_min [] key idx other h = ground arith
  route_of-note_min ((k, v) ∷ m) key idx other h = ground (
    arith,
    e.beq_iff k key,
    e.beq_iff k other,
    e.beq_iff key other,
    route_of-note_min m key idx other h,
  )

  pub route_of-note_all :
      (as' : List K) (m : List (K × ℕ)) (idx : ℕ) (other : K)
      → idx ≤ no_route
      → route_of (note_all (λ m a. note_min m a idx) m as') other
        ≡ (if member other as' then min idx (route_of m other) else route_of m other)
  unfolding note_all
  route_of-note_all [] m idx other h = refl
  route_of-note_all (a ∷ as') m idx other h = ground (
    arith,
    route_of-note_all as' (note_min m a idx) idx other h,
    route_of-note_min m a idx other h,
  )
