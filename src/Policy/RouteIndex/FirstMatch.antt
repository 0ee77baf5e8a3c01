-- ===== src/Policy/RouteIndex/FirstMatch.antt =====
-- How the answers of the index relate to the rule sets that it was built from, src/policy/mod.rs.
use rove.Base.{ℕ, ◌≤◌, min}
use rove.Base.{◌≡◌, refl, ap, ◌∙◌, Option, none, some, List, [], ◌∷◌, arith}
use rove.Base.{if◌then◌else◌}
use rove.Base.Eq.{nat_eq, list_eq}
use rove.Base.Text.{Text, is_empty, contains_text}
use rove.Policy.Domain.{matches_domain, normalize}
use rove.Policy.Ip.{IpText, matches_ip}
use rove.Net.{ip_eq}
use rove.Policy.Domain.{matches_normalized}
use rove.Policy.Rules.{Books, BookRules, RuleSet, matches, book_hit}
use rove.Net.{IpAddr}
use rove.Base.Eq.{Eq}
use rove.Policy.Domain.{labels}
use rove.Policy.Trie.{node, nil, get_child}
use rove.Policy.RouteIndex.{
  best_below, empty_index, RouteIndex, best_suffix, note_all, get, no_route, improve, or_better,
  best_ip, best_domain, best_route, index_into, note_book,
}
use rove.Policy.RouteIndex.Least.{
  least, improve-least, least-note_all, least-bound, route_of, route_of-note_all,
}
use rove.Policy.RouteIndex.Names.{IsBuilt, suffix_route, suffix_route-note_all}

module _ {Book Selector : Type 0} (x : IpText) (bk : Books Book Selector) where
  or_better-bound : (b : ℕ) (o : Option ℕ) → b ≤ no_route → or_better b o ≤ no_route
  or_better-bound b none h = h
  or_better-bound b (some i) h = ground arith

  or_better-min :
      (b : ℕ) (o : Option ℕ) → b ≤ no_route → or_better b o ≡ min b (or_better no_route o)
  or_better-min b none h = omega arith
  or_better-min b (some i) h = omega arith

  empty_key : {K : Type 0} ⦃e : Eq K⦄ (key : K) → route_of [] key ≡ no_route
  unfolding get
  empty_key key = refl

  empty_walk : (ls : List Text) → best_below (node none nil) ls none ≡ none
  unfolding best_below get_child
  empty_walk [] = refl
  empty_walk (l ∷ ls) = refl

  empty_suffix : (n : Text) → suffix_route (node none nil) n ≡ no_route
  unfolding best_suffix
  empty_suffix n = ground (arith, empty_walk (labels n))

  best_ip-least :
      (ix : RouteIndex Book Selector) (addr : IpAddr)
      → best_ip x bk ix addr
        ≡ min (route_of ix.exact_ip addr) (least (λ n. x.net_contains n addr) ix.cidrs)
  unfolding best_ip
  best_ip-least ix addr =
      improve-least (λ n. x.net_contains n addr) (route_of ix.exact_ip addr) ix.cidrs
        (or_better-bound no_route (get ix.exact_ip addr) (omega arith))

  best_domain-least :
      (ix : RouteIndex Book Selector) (n : Text)
      → best_domain x bk ix n ≡ (
          if is_empty n
          then no_route
          else min
              (min (route_of ix.full n) (suffix_route ix.suffix n))
              (least (λ k. contains_text k n) ix.keywords))
  unfolding best_domain
  best_domain-least ix n =
      ap (λ b. if is_empty n then no_route else b)
        (filled (or_better-bound no_route (get ix.full n) (omega arith)))
    where
      filled :
          route_of ix.full n ≤ no_route
          → improve
              (λ k. contains_text k n)
              (or_better (route_of ix.full n) (best_suffix ix.suffix n))
              ix.keywords
            ≡ min
                (min (route_of ix.full n) (or_better no_route (best_suffix ix.suffix n)))
                (least (λ k. contains_text k n) ix.keywords)
      filled h =
          improve-least (λ k. contains_text k n)
            (or_better (route_of ix.full n) (best_suffix ix.suffix n)) ix.keywords
            (or_better-bound (route_of ix.full n) (best_suffix ix.suffix n) h)
          ∙ ap (λ b. min b (least (λ k. contains_text k n) ix.keywords))
              (or_better-min (route_of ix.full n) (best_suffix ix.suffix n) h)

  abbrev book_route : Text → List (BookRules Book Selector × ℕ) → ℕ
  book_route host = least (λ (b : BookRules Book Selector). bk.book_matches b.book host b.selector)

  -- The answer before the address book is asked.
  abbrev start : RouteIndex Book Selector → Text → ℕ
  start ix host = elim (x.parse_ip host) [
    | some addr ↦ best_ip x bk ix addr
    | none ↦ best_domain x bk ix (normalize host)
  ]

  start-bound : (ix : RouteIndex Book Selector) (host : Text) → start ix host ≤ no_route
  start-bound ix host = by_kind (x.parse_ip host)
    where
      by_kind :
          (o : Option IpAddr)
          → (elim o [
            | some addr ↦ best_ip x bk ix addr
            | none ↦ best_domain x bk ix (normalize host)
          ])
            ≤ no_route
      by_kind (some addr) =
          ground (arith, best_ip-least ix addr, least-bound (λ n. x.net_contains n addr) ix.cidrs)
      by_kind none = ground (
        arith,
        best_domain-least ix (normalize host),
        least-bound (λ k. contains_text k (normalize host)) ix.keywords,
      )

  best_route-least :
      (ix : RouteIndex Book Selector) (host : Text)
      → best_route x bk ix host ≡ min (start ix host) (book_route host ix.books)
  unfolding best_route
  best_route-least ix host =
      improve-least (λ (b : BookRules Book Selector). bk.book_matches b.book host b.selector)
        (start ix host) ix.books (start-bound ix host)

  pub best_route-bound :
      (ix : RouteIndex Book Selector) (host : Text) → best_route x bk ix host ≤ no_route
  best_route-bound ix host = ground (arith, best_route-least ix host, start-bound ix host)

  pub best_route-empty_index : (host : Text) → best_route x bk empty_index host ≡ no_route
  best_route-empty_index host = best_route-least empty_index host ∙ nothing (x.parse_ip host)
    where
      nothing :
          (o : Option IpAddr)
          → min
              (elim o [
                | some addr ↦ best_ip x bk empty_index addr
                | none ↦ best_domain x bk empty_index (normalize host)
              ])
              no_route
            ≡ no_route
      nothing (some addr) = ground (arith, best_ip-least empty_index addr, empty_key addr)
      nothing none = ground (
        arith,
        best_domain-least empty_index (normalize host),
        empty_key (normalize host),
        empty_suffix (normalize host),
      )

  module _ (rs : RuleSet Book Selector) (idx : ℕ) (ix : RouteIndex Book Selector)
      (below : idx ≤ no_route) where
    best_ip-index_into :
        (addr : IpAddr)
        → best_ip x bk (index_into rs idx ix) addr ≡ (
            if matches_ip x rs.ips addr
            then min idx (best_ip x bk ix addr)
            else best_ip x bk ix addr)
    unfolding index_into matches_ip
    best_ip-index_into addr =
        best_ip-least (index_into rs idx ix) addr
        ∙ ground (
          arith,
          best_ip-least ix addr,
          route_of-note_all rs.ips.exact ix.exact_ip idx addr below,
          least-note_all (λ n. x.net_contains n addr) idx rs.ips.cidrs ix.cidrs,
        )

    best_domain-index_into :
        IsBuilt rs.domains.domain
        → (n : Text)
        → best_domain x bk (index_into rs idx ix) n ≡ (
            if matches_normalized rs.domains n
            then min idx (best_domain x bk ix n)
            else best_domain x bk ix n)
    unfolding index_into matches_normalized
    best_domain-index_into built n =
        best_domain-least (index_into rs idx ix) n
        ∙ ground (
          arith,
          best_domain-least ix n,
          route_of-note_all rs.domains.full ix.full idx n below,
          suffix_route-note_all rs.domains.domain ix.suffix idx n built,
          least-note_all (λ k. contains_text k n) idx rs.domains.keyword ix.keywords,
        )

    book_route-note_book :
        (host : Text) (o : Option (BookRules Book Selector))
        (books : List (BookRules Book Selector × ℕ))
        → book_route host (note_book o idx books) ≡ (
            if book_hit x bk host o then min idx (book_route host books) else book_route host books)
    unfolding note_all
    book_route-note_book host none books = refl
    book_route-note_book host (some b) books = ground (
      arith,
      least-note_all (λ (b : BookRules Book Selector). bk.book_matches b.book host b.selector) idx
          (b ∷ []) books,
    )

    books_noted :
        (host : Text)
        → book_route host (index_into rs idx ix).books ≡ (
            if book_hit x bk host rs.book
            then min idx (book_route host ix.books)
            else book_route host ix.books)
    unfolding index_into
    books_noted host = book_route-note_book host rs.book ix.books

    start-index_into :
        IsBuilt rs.domains.domain
        → (host : Text) (o : Option IpAddr)
        → (elim o [
          | some addr ↦ best_ip x bk (index_into rs idx ix) addr
          | none ↦ best_domain x bk (index_into rs idx ix) (normalize host)
        ])
          ≡ (if (elim o [
            | some addr ↦ matches_ip x rs.ips addr
            | none ↦ matches_domain rs.domains host
          ])
              then min idx (elim o [
                | some addr ↦ best_ip x bk ix addr
                | none ↦ best_domain x bk ix (normalize host)
              ])
              else (elim o [
                | some addr ↦ best_ip x bk ix addr
                | none ↦ best_domain x bk ix (normalize host)
              ]))
    unfolding matches_domain
    start-index_into built host none = best_domain-index_into built (normalize host)
    start-index_into built host (some addr) = best_ip-index_into addr

    -- Indexing a rule set under a route lowers the answer to that route just when the set matches.
    pub best_route-index_into :
        IsBuilt rs.domains.domain
        → (host : Text)
        → best_route x bk (index_into rs idx ix) host ≡ (
            if matches x bk rs host
            then min idx (best_route x bk ix host)
            else best_route x bk ix host)
    unfolding matches
    best_route-index_into built host =
        best_route-least (index_into rs idx ix) host
        ∙ ap (min (start (index_into rs idx ix) host)) (books_noted host)
        ∙ ap
            (λ a. min a (
              if book_hit x bk host rs.book
              then min idx (book_route host ix.books)
              else book_route host ix.books))
            (start-index_into built host (x.parse_ip host))
        ∙ ground (arith, best_route-least ix host)
