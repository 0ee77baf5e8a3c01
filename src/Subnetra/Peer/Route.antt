-- ===== src/Subnetra/Peer/Route.antt =====
-- Routing by inner destination, `route` of src/subnetra/peer.rs.
use rove.Base.{ℕ, suc, ◌≤◌}
use rove.Base.{
  ◌≡◌, refl, ap, ◌⊎◌, inl, inr, Bool, true, false, Option, none, some, List, [], ◌∷◌, arith,
}
use rove.Base.{leb, Bool-cases, Option-cases}
use rove.Base.{get_elem?, All}
use rove.Net.{Ipv4Net}
use rove.Subnetra.Crypto.{Primitives}
use rove.Subnetra.Peer.{Peer, PeerTable, pick, best_route, route}

module _ (c : Primitives) (net_contains : Ipv4Net → ℕ → Bool) (dst : ℕ) where
  abbrev pub Owns : Peer → Type 0
  Owns p = net_contains p.allowed_src dst ≡ true

  -- No peer that owns the destination has a longer prefix than `q`.
  abbrev pub Longest : Peer → List Peer → Type 0
  Longest q = All (λ (p : Peer). Owns p → p.allowed_src.prefix_len ≤ q.allowed_src.prefix_len)

  -- `r` is the best of the peers seen so far and those to come.
  abbrev pub IsBest : Option Peer → List Peer → Option Peer → Type 0
  IsBest best ps none =
      (best ≡ none) × All (λ (p : Peer). net_contains p.allowed_src dst ≡ false) ps
  IsBest best ps (some q) =
      Owns q
      × Longest q ps
      × ((b : Peer) → best ≡ some b → b.allowed_src.prefix_len ≤ q.allowed_src.prefix_len)
      × ((best ≡ some q) ⊎ ((i : ℕ) × (get_elem? ps i ≡ some q)))

  -- From the choice after `p` has been looked at to the choice before.
  record Improves (best : Option Peer) (p : Peer) (best' : Option Peer) : Type 0 where
    none_left : best' ≡ none → (best ≡ none) × (net_contains p.allowed_src dst ≡ false)
    over_p :
        Owns p
        → (x : Peer) × (best' ≡ some x) × (p.allowed_src.prefix_len ≤ x.allowed_src.prefix_len)
    over_best :
        (b : Peer)
        → best ≡ some b
        → (x : Peer) × (best' ≡ some x) × (b.allowed_src.prefix_len ≤ x.allowed_src.prefix_len)
    origin : (q : Peer) → best' ≡ some q → (best ≡ some q) ⊎ (p ≡ q)

  widen :
      (best best' : Option Peer) (p : Peer) (ps : List Peer) (r : Option Peer)
      → Improves best p best'
      → IsBest best' ps r
      → IsBest best (p ∷ ps) r
  widen best best' p ps none m (e, out) = ((m.none_left e).0, ((m.none_left e).1, out))
  widen best best' p ps (some q) m (owns, longest, over, from) = (
    owns,
    ((λ o. let (x, e, le) = m.over_p o in omega (arith, over x e)), longest),
    (λ b e. let (x, e', le) = m.over_best b e in omega (arith, over x e')),
    elim from [
      | inl e ↦ elim (m.origin q e) [ inl old ↦ inl old | inr same ↦ inr (0, ap some same) ]
      | inr (i, e) ↦ inr (suc i, e)
    ],
  )

  pick-Improves : (best : Option Peer) (p : Peer) → Improves best p (pick c net_contains best p dst)
  unfolding pick
  pick-Improves best p = elim (Bool-cases (net_contains p.allowed_src dst)) [
    | inr out ↦ rw out (record {
      none_left = λ e. (e, out);
      over_p = λ o. cc;
      over_best = λ b e. (b, e, omega arith);
      origin = λ q e. inl e;
    })
    | inl owns ↦ elim (Option-cases best) [
      | inl empty ↦
          rw (owns, empty)
            (record {
              none_left = λ e. cc;
              over_p = λ o. (p, refl, omega arith);
              over_best = λ b e. cc;
              origin = λ q e. inr (cc);
            })
      | inr (q, kept) ↦ elim (Bool-cases (leb q.allowed_src.prefix_len p.allowed_src.prefix_len)) [
        | inl longer ↦
            rw (owns, kept, longer)
              (record {
                none_left = λ e. cc;
                over_p = λ o. (p, refl, omega arith);
                over_best =
                    λ b e. (p, refl, ground (arith, ap (λ (o : Option Peer). prefix_of o) e));
                origin = λ r e. inr (cc);
              })
        | inr shorter ↦
            rw (owns, kept, shorter)
              (record {
                none_left = λ e. cc;
                over_p = λ o. (q, refl, ground arith);
                over_best =
                    λ b e. (q, refl, ground (arith, ap (λ (o : Option Peer). prefix_of o) e));
                origin = λ r e. inl e;
              })
      ]
    ]
  ]
    where
      prefix_of : Option Peer → ℕ
      prefix_of none = 0
      prefix_of (some r) = r.allowed_src.prefix_len

  pick-Owns :
      (best : Option Peer) (p : Peer)
      → ((b : Peer) → best ≡ some b → Owns b)
      → (b : Peer) → pick c net_contains best p dst ≡ some b
      → Owns b
  unfolding pick
  pick-Owns best p o b e = elim ((pick-Improves best p).origin b e) [
    | inl old ↦ o b old
    | inr new ↦ elim (Bool-cases (net_contains p.allowed_src dst)) [
      | inl owns ↦ rw (← new) owns
      | inr out ↦ o b (rw out at e)
    ]
  ]

  best_route-IsBest :
      (ps : List Peer) (best : Option Peer)
      → ((b : Peer) → best ≡ some b → Owns b)
      → IsBest best ps (best_route c net_contains best ps dst)
  unfolding best_route
  best_route-IsBest [] none o = (refl, tt)
  best_route-IsBest [] (some b) o = (o b refl, tt, (λ b' e. omega (arith, (over b' e))), inl refl)
    where
      over :
          (b' : Peer)
          → ◌≡◌ {A = Option Peer} (some b) (some b')
          → b.allowed_src.prefix_len ≡ b'.allowed_src.prefix_len
      over b' e = ground arith
  best_route-IsBest (p ∷ ps) best o =
      widen best _ p ps _ (pick-Improves best p)
        (best_route-IsBest ps (pick c net_contains best p dst) (pick-Owns best p o))

-- The route of a destination is a peer whose prefix contains it, and no peer whose prefix contains
-- it has a longer one. There is no route exactly if no peer's prefix contains the destination.
pub route-Longest_prefix :
    (c : Primitives) (net_contains : Ipv4Net → ℕ → Bool) (t : PeerTable) (dst : ℕ)
    → ((q : Peer) × (route c net_contains t dst ≡ some q.id)
        × ((i : ℕ) × (get_elem? t.peers i ≡ some q))
        × Owns c net_contains dst q
        × Longest c net_contains dst q t.peers)
      ⊎ ((route c net_contains t dst ≡ none)
          × All (λ (p : Peer). net_contains p.allowed_src dst ≡ false) t.peers)
unfolding route
route-Longest_prefix c net_contains t dst =
    conclude (best_route c net_contains none t.peers dst) refl
      (best_route-IsBest c net_contains dst t.peers none (λ b e. cc))
  where
    conclude :
        (r : Option Peer)
        → best_route c net_contains none t.peers dst ≡ r
        → IsBest c net_contains dst none t.peers r
        → ((q : Peer) × (route c net_contains t dst ≡ some q.id)
            × ((i : ℕ) × (get_elem? t.peers i ≡ some q))
            × Owns c net_contains dst q
            × Longest c net_contains dst q t.peers)
          ⊎ ((route c net_contains t dst ≡ none)
              × All (λ (p : Peer). net_contains p.allowed_src dst ≡ false) t.peers)
    conclude none e (_, out) = inr (rw (e, route), out)
    conclude (some q) e (owns, longest, _, from) =
        inl (q, rw (e, route), elim from [ inl none_is ↦ cc | inr at ↦ at ], owns, longest)
