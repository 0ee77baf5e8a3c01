-- ===== src/Policy/RouteIndex.antt =====
-- The first-match index of src/policy/mod.rs. A map is an association list with each key once, a
-- route index a number below `2 ^ 32`; `u32::MAX` stands for no route.
pub mod Least
pub mod Suffix
pub mod Names
pub mod FirstMatch
use rove.Base.{
  ℕ, zero, suc, ◌+◌, ◌-◌, ◌*◌, ◌/◌, ◌%◌, ◌^◌, ◌≤◌, ◌<◌, min, max, bit_and, bit_or, bit_xor,
}
use rove.Base.{
  ◌≡◌, refl, sym, ap, ◌∙◌, ◌≢◌, ◌↔◌, ◌⊎◌, inl, inr, Bool, true, false, not, ◌&&◌, ◌||◌, Option,
  none, some, List, [], ◌∷◌, ◌++◌, map, arith,
}
use rove.Base.{
  ltb, leb, ◌==◌, if◌then◌else◌, ltb→lt, lt→ltb, leb→le, le→leb, le→ltb_false, ==_iff, Bool-cases,
  Option-cases,
}
use rove.Base.{
  drop-append_add, All-take, All-append, replicate, length, get_elem?, set, take, drop, any, all,
  All, length-append, length-take, length-drop, take-append_length, drop-append_length,
  take-append-drop, any-append, length-set, get_elem?-set_self, get_elem?-set_ne,
}
use rove.Base.Eq.{Eq, same, same_refl, list_beq, list_beq_iff, member, nat_eq, list_eq}
use rove.Base.Bytes.{ascii}
use rove.Base.Text.{
  Text, is_empty, to_ascii_lowercase, trim, trim_matches, strip_prefix, contains_text, split_on,
  split_once, join_with,
}
use rove.Base.Text.Split.{IsFree, split_on-IsFree, split_on-join_with}
use rove.Policy.Trie.{Trie, node, nil, get_child, update_at}
use rove.Policy.Domain.{
  DomainMatcher, empty_domains, add_rule, matches_domain, has_no_domains, contribute_suffixes,
  normalize, labels,
}
use rove.Net.{IpAddr}
use rove.Policy.Ip.{IpNet, IpMatcher, IpText, empty_ips, add_ip, matches_ip, has_no_ips}
use rove.Net.{ip_eq}
use rove.Policy.Rules.{Books, BookRules, RuleSet}

pub record RouteIndex (Book Selector : Type 0) : Type 0 where
  pub full : List (Text × ℕ)
  pub suffix : Trie (Option ℕ)
  pub keywords : List (Text × ℕ)
  pub exact_ip : List (IpAddr × ℕ)
  pub cidrs : List (IpNet × ℕ)
  pub books : List (BookRules Book Selector × ℕ)

abbrev pub no_route : ℕ
no_route = 4294967295

abbrev pub empty_index : {Book Selector : Type 0} → RouteIndex Book Selector
empty_index = record {
  full = [];
  suffix = node none nil;
  keywords = [];
  exact_ip = [];
  cidrs = [];
  books = [];
}

module _ {K : Type 0} ⦃e : Eq K⦄ where
  unfoldable pub note_min : List (K × ℕ) → K → ℕ → List (K × ℕ)
  note_min [] key idx = (key, idx) ∷ []
  note_min ((k, current) ∷ m) key idx =
      let rest = note_min m key idx in
      if same k key then (k, min current idx) ∷ m else (k, current) ∷ rest

  unfoldable pub get : List (K × ℕ) → K → Option ℕ
  get [] key = none
  get ((k, v) ∷ m) key = let rest = get m key in if same k key then some v else rest

unfoldable pub map_or_min : Option ℕ → ℕ → Option ℕ
map_or_min none idx = some idx
map_or_min (some best) idx = some (min best idx)

-- `IndexedSuffix::add` and `IndexedSuffix::best`
unfoldable pub add_indexed : Trie (Option ℕ) → Text → ℕ → Trie (Option ℕ)
unfolding map_or_min labels
add_indexed root domain idx =
    if is_empty domain
    then root
    else update_at none (labels domain) (λ best. map_or_min best idx) root

unfoldable pub best_below : Trie (Option ℕ) → List Text → Option ℕ → Option ℕ
unfolding map_or_min get_child
best_below t [] best = best
best_below (node v cs) (l ∷ ls) best = elim (get_child l cs) [
  | none ↦ best
  | some (node w ds) ↦
      best_below (node w ds) ls (elim w [ none ↦ best | some idx ↦ map_or_min best idx ])
]

unfoldable pub best_suffix : Trie (Option ℕ) → Text → Option ℕ
unfolding best_below labels
best_suffix root domain = if is_empty domain then none else best_below root (labels domain) none

-- Every element of a list noted under the route, in order.
unfoldable pub note_all {ℓ κ} : {A : Type ℓ} {I : Type κ} → (I → A → I) → I → List A → I
note_all note ix [] = ix
note_all note ix (a ∷ as') = note_all note (note ix a) as'

-- A search through entries that ends at route 0 and skips the ones that cannot improve on `best`.
unfoldable pub improve {ℓ} : {A : Type ℓ} → (A → Bool) → ℕ → List (A × ℕ) → ℕ
improve hits best [] = best
improve hits best ((a, idx) ∷ es) =
    let found = improve hits idx es in
    let skipped = improve hits best es in
    if ltb idx best && hits a then (if idx == 0 then idx else found) else skipped

abbrev pub or_better : ℕ → Option ℕ → ℕ
or_better best none = best
or_better best (some idx) = min best idx

module _ {Book Selector : Type 0} where
  abbrev pub note_book :
      Option (BookRules Book Selector)
      → ℕ
      → List (BookRules Book Selector × ℕ)
      → List (BookRules Book Selector × ℕ)
  note_book none idx books = books
  note_book (some b) idx books = books ++ (b, idx) ∷ []

  -- `RuleSet::index_into`: each part of the index takes the entries of its own selectors.
  unfoldable pub index_into :
      RuleSet Book Selector → ℕ → RouteIndex Book Selector → RouteIndex Book Selector
  unfolding note_all note_min add_indexed
  index_into rs idx ix = record {
    full = note_all (λ m host. note_min m host idx) ix.full rs.domains.full;
    suffix =
        note_all (λ t host. add_indexed t host idx) ix.suffix
          (contribute_suffixes rs.domains.domain);
    keywords = note_all (λ es k. es ++ (k, idx) ∷ []) ix.keywords rs.domains.keyword;
    exact_ip = note_all (λ m addr. note_min m addr idx) ix.exact_ip rs.ips.exact;
    cidrs = note_all (λ es net. es ++ (net, idx) ∷ []) ix.cidrs rs.ips.cidrs;
    books = note_book rs.book idx ix.books;
  }

  module _ (x : IpText) (bk : Books Book Selector) where
    unfoldable pub best_ip : RouteIndex Book Selector → IpAddr → ℕ
    unfolding get improve
    best_ip ix addr =
        improve (λ n. x.net_contains n addr) (or_better no_route (get ix.exact_ip addr)) ix.cidrs

    unfoldable pub best_domain : RouteIndex Book Selector → Text → ℕ
    unfolding get improve best_suffix
    best_domain ix n =
        if is_empty n
        then no_route
        else improve (λ k. contains_text k n)
            (or_better (or_better no_route (get ix.full n)) (best_suffix ix.suffix n)) ix.keywords

    -- The variable `best` of `first_match` at its end.
    unfoldable pub best_route : RouteIndex Book Selector → Text → ℕ
    unfolding improve best_ip best_domain normalize
    best_route ix host =
        improve (λ b. bk.book_matches b.book host b.selector)
          (elim (x.parse_ip host) [
            | some addr ↦ best_ip ix addr
            | none ↦ best_domain ix (normalize host)
          ])
          ix.books

    unfoldable pub first_match : RouteIndex Book Selector → Text → Option ℕ
    unfolding best_route
    first_match ix host = if best_route ix host == no_route then none else some (best_route ix host)
