-- ===== src/Model/Decide/Veto.antt =====
-- The requested and the sniffed host in `decide_with_sniff` of src/model.rs.
use rove.Base.{ℕ}
use rove.Base.{◌≡◌, refl, sym, ap, ◌∙◌, ◌≢◌, ◌⊎◌, inl, inr, true, false, Option, none, some}
use rove.Base.{Option-cases}
use rove.Base.Eq.{nat_eq, list_eq}
use rove.Base.Text.{Text}
use rove.Base.Assoc.{find}
use rove.Policy.Ip.{IpText}
use rove.Policy.Rules.{Books}
use rove.Model.Egress.{RouteAction, to_egress, go_direct, go_block}
use rove.Model.Policy.{RoutingPolicy, first_route}
use rove.Model.Snapshot.{Snapshot, User}
use rove.Model.Decide.{
  block, decide_with_sniff, is_ip_host, unattributed_block, resolved, by_request, by_sniffed,
  with_veto, route_action_decision, decide_in,
}

module _ {Book Selector Date : Type 0} (x : IpText) (bk : Books Book Selector)
    (s : Snapshot Book Selector Date) (name requested : Text) where
  -- The user or its policy is missing from the snapshot.
  abbrev pub HasNoPolicy : Type 0
  HasNoPolicy =
      (find s.users name ≡ none)
      ⊎ ((u : User Date) × (find s.users name ≡ some u) × (find s.policies u.policy ≡ none))

  -- Without a policy to ask, every connection is blocked and nothing is named as the reason.
  no_policy_blocks :
      (sniffed : Option Text)
      → HasNoPolicy
      → decide_with_sniff x bk s name requested sniffed ≡ unattributed_block s.version requested
  unfolding decide_with_sniff
  no_policy_blocks sniffed (inl h) = rw (h, decide_with_sniff) refl
  no_policy_blocks sniffed (inr (u, h, k)) = rw (h, k, decide_with_sniff) refl

  module _ (u : User Date) (p : RoutingPolicy Book Selector) (found : find s.users name ≡ some u)
      (bound : find s.policies u.policy ≡ some p) where
    decided :
        (sniffed : Option Text)
        → decide_with_sniff x bk s name requested sniffed
          ≡ decide_in x bk s.version u.policy p requested sniffed
    unfolding decide_with_sniff
    decided sniffed = rw (found, bound, decide_with_sniff) refl

    -- If the first route of the requested host blocks, the connection is blocked, and neither what
    -- was sniffed nor whether anything was makes a difference to the decision or its attribution.
    pub requested_block_vetoes :
        (sniffed other : Option Text) (idx : ℕ)
        → first_route x bk p requested ≡ some (idx, go_block)
        → (decide_with_sniff x bk s name requested sniffed
            ≡ decide_with_sniff x bk s name requested other)
          × ((decide_with_sniff x bk s name requested sniffed).decision ≡ block)
    unfolding decide_in
    requested_block_vetoes sniffed other idx h =
        let blocked : (o : Option Text)
            → decide_with_sniff x bk s name requested o
              ≡ resolved s.version u.policy block requested (some idx) =
          λ o. decided o ∙ rw h refl in
        (blocked sniffed ∙ sym (blocked other), ap (λ d. d.decision) (blocked sniffed))

    sniffed_vetoes_at :
        (host : Text) (idx : ℕ) (r : Option (ℕ × RouteAction))
        → first_route x bk p host ≡ some (idx, go_block)
        → (with_veto s.version u.policy r requested (
            by_sniffed s.version u.policy
              (is_ip_host x requested)
              r
              (some (host, first_route x bk p host))
              p.default_action
              requested)).decision
          ≡ block
    unfolding by_sniffed
    sniffed_vetoes_at host idx none h = rw h refl
    sniffed_vetoes_at host idx (some (i, to_egress e)) h = rw h refl
    sniffed_vetoes_at host idx (some (i, go_direct)) h = rw h refl
    sniffed_vetoes_at host idx (some (i, go_block)) h = refl

    -- A block route of the sniffed host blocks, whatever the requested host's routes say.
    pub sniffed_block_vetoes :
        (host : Text) (idx : ℕ)
        → first_route x bk p host ≡ some (idx, go_block)
        → (decide_with_sniff x bk s name requested (some host)).decision ≡ block
    unfolding decide_in
    sniffed_block_vetoes host idx h =
        ap (λ d. d.decision) (decided (some host))
        ∙ sniffed_vetoes_at host idx (first_route x bk p requested) h

    sniffed_idle_at :
        (host : Text) (r q : Option (ℕ × RouteAction))
        → ((idx : ℕ) → q ≢ some (idx, go_block))
        → by_sniffed s.version u.policy false r (some (host, q)) p.default_action requested
          ≡ by_request s.version u.policy r p.default_action requested
    unfolding by_sniffed
    sniffed_idle_at host r none h = refl
    sniffed_idle_at host r (some (i, to_egress e)) h = refl
    sniffed_idle_at host r (some (i, go_direct)) h = refl
    sniffed_idle_at host r (some (i, go_block)) h = absurd (h i refl)

    -- For a requested domain, a sniffed host that no route blocks changes nothing.
    pub sniffed_ignored_for_domain :
        (host : Text)
        → is_ip_host x requested ≡ false
        → ((idx : ℕ) → first_route x bk p host ≢ some (idx, go_block))
        → decide_with_sniff x bk s name requested (some host)
          ≡ decide_with_sniff x bk s name requested none
    unfolding by_sniffed decide_in decide_with_sniff
    sniffed_ignored_for_domain host domain clear =
        decided (some host)
        ∙ ap (with_veto s.version u.policy (first_route x bk p requested) requested) (
            ap
              (λ b.
                by_sniffed s.version u.policy b (first_route x bk p requested)
                  (some (host, first_route x bk p host)) p.default_action requested)
              domain
            ∙ sniffed_idle_at host (first_route x bk p requested) (first_route x bk p host) clear)
        ∙ sym (decided none)

    sniffed_selects :
        (host : Text) (idx : ℕ) (a : RouteAction)
        → is_ip_host x requested ≡ true
        → first_route x bk p host ≡ some (idx, a)
        → ((i : ℕ) → first_route x bk p requested ≢ some (i, go_block))
        → decide_with_sniff x bk s name requested (some host)
          ≡ resolved s.version u.policy (route_action_decision a) host (some idx)
    unfolding by_sniffed route_action_decision decide_in
    sniffed_selects host idx a ip h clear =
        decided (some host) ∙ at_address (first_route x bk p requested) a h clear
      where
        at_address :
            (r : Option (ℕ × RouteAction)) (b : RouteAction)
            → first_route x bk p host ≡ some (idx, b)
            → ((i : ℕ) → r ≢ some (i, go_block))
            → with_veto s.version u.policy r requested (
                by_sniffed s.version u.policy
                  (is_ip_host x requested)
                  r
                  (some (host, first_route x bk p host))
                  p.default_action
                  requested)
              ≡ resolved s.version u.policy (route_action_decision b) host (some idx)
        at_address none go_block g c = rw g refl
        at_address none go_direct g c = rw (g, ip) refl
        at_address none (to_egress e) g c = rw (g, ip) refl
        at_address (some (i, go_block)) b g c = absurd (c i refl)
        at_address (some (i, go_direct)) go_block g c = rw g refl
        at_address (some (i, go_direct)) go_direct g c = rw (g, ip) refl
        at_address (some (i, go_direct)) (to_egress e) g c = rw (g, ip) refl
        at_address (some (i, to_egress f)) go_block g c = rw g refl
        at_address (some (i, to_egress f)) go_direct g c = rw (g, ip) refl
        at_address (some (i, to_egress f)) (to_egress e) g c = rw (g, ip) refl

    unrouted_for_address :
        (host : Text)
        → first_route x bk p host ≡ none
        → decide_with_sniff x bk s name requested (some host)
          ≡ decide_with_sniff x bk s name requested none
    unfolding by_sniffed decide_in
    unrouted_for_address host h = decided (some host) ∙ rw h refl ∙ sym (decided none)

module _ {Book Selector Date : Type 0} (x : IpText) (bk : Books Book Selector)
    (s : Snapshot Book Selector Date) (name requested : Text) (u : User Date)
    (p : RoutingPolicy Book Selector) (found : find s.users name ≡ some u)
    (bound : find s.policies u.policy ≡ some p) where
  by_name :
      (host : Text) (idx : ℕ) (a : RouteAction)
      → first_route x bk p host ≡ some (idx, a)
      → decide_with_sniff x bk s name host none
        ≡ resolved s.version u.policy (route_action_decision a) host (some idx)
  unfolding by_sniffed by_request decide_in route_action_decision
  by_name host idx a h = decided x bk s name host u p found bound none ∙ named a h
    where
      named :
          (b : RouteAction)
          → first_route x bk p host ≡ some (idx, b)
          → decide_in x bk s.version u.policy p host none
            ≡ resolved s.version u.policy (route_action_decision b) host (some idx)
      named go_block g = rw g refl
      named go_direct g = rw g refl
      named (to_egress e) g = rw g refl

  -- A connection to an address that no route blocks, with a sniffed host, is decided just as a
  -- connection that asks for the sniffed host by its name, if a route matches that host; if none
  -- does, it is decided as if nothing had been sniffed.
  pub sniffed_selects_for_address :
      (host : Text)
      → is_ip_host x requested ≡ true
      → ((i : ℕ) → first_route x bk p requested ≢ some (i, go_block))
      → ((idx : ℕ) × (a : RouteAction) × (first_route x bk p host ≡ some (idx, a))
          × (decide_with_sniff x bk s name requested (some host)
              ≡ decide_with_sniff x bk s name host none))
        ⊎ (first_route x bk p host ≡ none)
          × (decide_with_sniff x bk s name requested (some host)
              ≡ decide_with_sniff x bk s name requested none)
  sniffed_selects_for_address host ip clear = elim (Option-cases (first_route x bk p host)) [
    | inl h ↦ inr (h, unrouted_for_address x bk s name requested u p found bound host h)
    | inr ((idx, a), h) ↦ inl (
      idx,
      a,
      h,
      sniffed_selects x bk s name requested u p found bound host idx a ip h clear
          ∙ sym (by_name host idx a h),
    )
  ]
