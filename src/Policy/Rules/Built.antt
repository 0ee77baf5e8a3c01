-- ===== src/Policy/Rules/Built.antt =====
-- The matchers that `from_rules` of src/policy/mod.rs builds.
use rove.Base.{◌⊎◌, inl, inr, Option, none, some, List, [], ◌∷◌, ◌++◌}
use rove.Base.{if◌then◌else◌, Bool-cases}
use rove.Base.Eq.{list_beq, nat_eq, list_eq}
use rove.Base.Bytes.{ascii}
use rove.Base.Text.{Text, is_empty, trim, strip_prefix, split_once}
use rove.Policy.Domain.{DomainMatcher, empty_domains, add_rule, normalize}
use rove.Policy.Ip.{IpMatcher, IpText, empty_ips, add_ip}
use rove.Net.{ip_eq}
use rove.Policy.Rules.{Books, RuleSet, RuleError, sort_rules, add_entry, attach_book, from_rules}
use rove.Policy.Domain.{add_typed}
use rove.Policy.RouteIndex.Names.{IsBuilt, no_suffixes-IsBuilt, add_suffix-IsBuilt}

abbrev pub AreBuilt : DomainMatcher → Type 0
AreBuilt m = IsBuilt m.domain

empty_domains-AreBuilt : AreBuilt empty_domains
unfolding empty_domains
empty_domains-AreBuilt = no_suffixes-IsBuilt

add_typed-AreBuilt : (m : DomainMatcher) (typ p : Text) → AreBuilt m → AreBuilt (add_typed m typ p)
unfolding add_typed
add_typed-AreBuilt m typ p h = elim (Bool-cases (list_beq typ (ascii "full"))) [
  | inl full ↦ rw full h
  | inr other ↦ elim (Bool-cases (list_beq typ (ascii "keyword"))) [
    | inl keyword ↦ elim (Bool-cases (is_empty (normalize p))) [
      | inl bare ↦ rw (other, keyword, bare) h
      | inr word ↦ rw (other, keyword, word) h
    ]
    | inr suffix ↦ rw (other, suffix) (add_suffix-IsBuilt m.domain p h)
  ]
]

add_rule-AreBuilt : (m : DomainMatcher) (rule : Text) → AreBuilt m → AreBuilt (add_rule m rule)
unfolding add_rule
add_rule-AreBuilt m rule h = by_kind (split_once b':' rule)
  where
    by_kind :
        (o : Option (Text × Text))
        → AreBuilt (elim o [
          | some (typ, p) ↦ add_typed m typ p
          | none ↦ add_typed m (ascii "domain") rule
        ])
    by_kind none = add_typed-AreBuilt m (ascii "domain") rule h
    by_kind (some (typ, p)) = add_typed-AreBuilt m typ p h

module _ (x : IpText) where
  add_entry-AreBuilt :
      (t : Text) (m : DomainMatcher × IpMatcher) → AreBuilt m.0 → AreBuilt (add_entry x t m).0
  unfolding add_entry
  add_entry-AreBuilt t (ds, ips) h = elim (Bool-cases (add_ip x ips t).1) [
    | inl address ↦ rw address h
    | inr name ↦ rw name (add_rule-AreBuilt ds t h)
  ]

  abbrev SortedAreBuilt : RuleError ⊎ (DomainMatcher × IpMatcher × List Text) → Type 0
  SortedAreBuilt (inl e) = Unit
  SortedAreBuilt (inr (ds, ips, ps)) = AreBuilt ds

  sort_rules-AreBuilt :
      (rules : List Text) (m : DomainMatcher × IpMatcher) (ps : List Text)
      → AreBuilt m.0
      → SortedAreBuilt (sort_rules x rules m ps)
  unfolding sort_rules
  sort_rules-AreBuilt [] (ds, ips) ps h = h
  sort_rules-AreBuilt (t ∷ rules) m ps h = elim (Bool-cases (is_empty (trim t))) [
    | inl blank ↦ rw blank (sort_rules-AreBuilt rules m ps h)
    | inr filled ↦ rw filled (
        by_prefix (strip_prefix (ascii "book:") (trim t))
          (sort_rules-AreBuilt rules (add_entry x (trim t) m) ps (add_entry-AreBuilt (trim t) m h))
          (λ p. sort_rules-AreBuilt rules m (ps ++ trim p ∷ []) h))
  ]
    where
      by_prefix :
          (o : Option Text)
          → SortedAreBuilt (sort_rules x rules (add_entry x (trim t) m) ps)
          → ((p : Text) → SortedAreBuilt (sort_rules x rules m (ps ++ trim p ∷ [])))
          → SortedAreBuilt (elim o [
            | none ↦ sort_rules x rules (add_entry x (trim t) m) ps
            | some p ↦
                if is_empty (trim p)
                then inl RuleError.empty_book_rule
                else sort_rules x rules m (ps ++ trim p ∷ [])
          ])
      by_prefix none plain deferred = plain
      by_prefix (some p) plain deferred = elim (Bool-cases (is_empty (trim p))) [
        | inl bare ↦ rw bare tt
        | inr named ↦ rw named (deferred p)
      ]

  module _ {Book Selector : Type 0} (bk : Books Book Selector) where
    abbrev pub SetIsBuilt : RuleError ⊎ RuleSet Book Selector → Type 0
    SetIsBuilt (inl e) = Unit
    SetIsBuilt (inr rs) = AreBuilt rs.domains

    attach_book-AreBuilt :
        (ds : DomainMatcher) (ips : IpMatcher) (ps : List Text) (b : Option Book)
        → AreBuilt ds
        → SetIsBuilt (attach_book x bk ds ips ps b)
    unfolding attach_book
    attach_book-AreBuilt ds ips [] b d = d
    attach_book-AreBuilt ds ips (p ∷ ps) none d = tt
    attach_book-AreBuilt ds ips (p ∷ ps) (some b) d = by_selector (bk.resolve b (p ∷ ps))
      where
        by_selector :
            (o : Option Selector)
            → SetIsBuilt (elim o [
              | none ↦ inl RuleError.unknown_category
              | some s ↦
                  inr record {
                    domains = ds;
                    ips = ips;
                    book = some record { book = b; selector = s };
                  }
            ])
        by_selector none = tt
        by_selector (some s) = d

    -- A rule set that is built from rules has matchers whose tries hold names only.
    pub from_rules-AreBuilt :
        (rules : List Text) (book : Option Book) → SetIsBuilt (from_rules x bk rules book)
    unfolding from_rules
    from_rules-AreBuilt rules book =
        sorted (sort_rules x rules (empty_domains, empty_ips) [])
          (sort_rules-AreBuilt rules (empty_domains, empty_ips) [] empty_domains-AreBuilt)
      where
        sorted :
            (r : RuleError ⊎ (DomainMatcher × IpMatcher × List Text))
            → SortedAreBuilt r
            → SetIsBuilt
                (elim r [ inl e ↦ inl e | inr (ds, ips, ps) ↦ attach_book x bk ds ips ps book ])
        sorted (inl e) d = tt
        sorted (inr (ds, ips, ps)) d = attach_book-AreBuilt ds ips ps book d
