-- ===== src/Policy/Rules.antt =====
-- Compiled rule sets, `RuleSet` of src/policy/mod.rs. The address book is a parameter, as it stands
-- behind `AddrBook::resolve` and `AddrBook::matches`.
pub mod Built
use rove.Base.{
  ℕ, zero, suc, ◌+◌, ◌-◌, ◌*◌, ◌/◌, ◌%◌, ◌^◌, ◌≤◌, ◌<◌, min, max, bit_and, bit_or, bit_xor,
}
use rove.Base.{
  ◌≡◌, refl, sym, ap, ◌∙◌, ◌≢◌, ◌↔◌, ◌⊎◌, inl, inr, Bool, true, false, not, ◌&&◌, ◌||◌, Option,
  none, some, List, [], ◌∷◌, ◌++◌, map, arith,
}
use rove.Base.{
  ltb, leb, ◌==◌, if◌then◌else◌, ltb→lt, lt→ltb, leb→le, le→leb, le→ltb_false, ==_iff, Bool-cases,
  Option-cases,
}
use rove.Base.{
  drop-append_add, All-take, All-append, replicate, length, get_elem?, set, take, drop, any, all,
  All, length-append, length-take, length-drop, take-append_length, drop-append_length,
  take-append-drop, any-append, length-set, get_elem?-set_self, get_elem?-set_ne,
}
use rove.Base.Eq.{Eq, same, same_refl, list_beq, list_beq_iff, member, nat_eq, list_eq}
use rove.Base.Bytes.{ascii}
use rove.Base.Text.{
  Text, is_empty, to_ascii_lowercase, trim, trim_matches, strip_prefix, contains_text, split_on,
  split_once, join_with,
}
use rove.Base.Text.Split.{IsFree, split_on-IsFree, split_on-join_with}
use rove.Policy.Trie.{Trie, node, nil, get_child, update_at}
use rove.Policy.Domain.{
  DomainMatcher, empty_domains, add_rule, matches_domain, has_no_domains, contribute_suffixes,
  normalize, labels,
}
use rove.Policy.Ip.{IpNet, IpMatcher, IpText, empty_ips, add_ip, matches_ip, has_no_ips}
use rove.Net.{ip_eq}

-- What the address book answers.
pub record Books (Book Selector : Type 0) : Type 0 where
  pub resolve : Book → List Text → Option Selector
  pub book_matches : Book → Text → Selector → Bool

pub record BookRules (Book Selector : Type 0) : Type 0 where
  pub book : Book
  pub selector : Selector

pub record RuleSet (Book Selector : Type 0) : Type 0 where
  pub domains : DomainMatcher
  pub ips : IpMatcher
  pub book : Option (BookRules Book Selector)

pub data RuleError : Type 0 where
  empty_book_rule : RuleError
  no_addrbook : RuleError
  unknown_category : RuleError

module _ (x : IpText) where
  unfoldable pub add_entry : Text → DomainMatcher × IpMatcher → DomainMatcher × IpMatcher
  unfolding add_ip add_rule
  add_entry t (ds, ips) =
      let (added, is_ip) = add_ip x ips t in if is_ip then (ds, added) else (add_rule ds t, added)

  -- The loop of `from_rules`: the matchers and the address book's patterns, in order.
  unfoldable pub sort_rules :
      List Text
      → DomainMatcher × IpMatcher
      → List Text
      → RuleError ⊎ (DomainMatcher × IpMatcher × List Text)
  unfolding trim strip_prefix
  sort_rules [] (ds, ips) patterns = inr (ds, ips, patterns)
  sort_rules (r ∷ rs) m patterns =
      let skipped = sort_rules rs m patterns in
      let plain = sort_rules rs (add_entry (trim r) m) patterns in
      if is_empty (trim r) then skipped else elim (strip_prefix (ascii "book:") (trim r)) [
        | none ↦ plain
        | some pattern' ↦
            let deferred = sort_rules rs m (patterns ++ trim pattern' ∷ []) in
            if is_empty (trim pattern') then inl empty_book_rule else deferred
      ]

  module _ {Book Selector : Type 0} (bk : Books Book Selector) where
    unfoldable pub attach_book :
        DomainMatcher → IpMatcher → List Text → Option Book → RuleError ⊎ RuleSet Book Selector
    attach_book ds ips [] book = inr record { domains = ds; ips = ips; book = none }
    attach_book ds ips (p ∷ ps) none = inl no_addrbook
    attach_book ds ips (p ∷ ps) (some b) = elim (bk.resolve b (p ∷ ps)) [
      | none ↦ inl unknown_category
      | some s ↦
          inr record { domains = ds; ips = ips; book = some record { book = b; selector = s } }
    ]

    unfoldable pub from_rules : List Text → Option Book → RuleError ⊎ RuleSet Book Selector
    unfolding sort_rules attach_book
    from_rules rules book = elim (sort_rules rules (empty_domains, empty_ips) []) [
      | inl e ↦ inl e
      | inr (ds, ips, patterns) ↦ attach_book ds ips patterns book
    ]

    abbrev pub book_hit : Text → Option (BookRules Book Selector) → Bool
    book_hit host none = false
    book_hit host (some b) = bk.book_matches b.book host b.selector

    unfoldable pub matches : RuleSet Book Selector → Text → Bool
    unfolding matches_ip matches_domain
    matches rs host =
        if (elim (x.parse_ip host) [
          | some addr ↦ matches_ip x rs.ips addr
          | none ↦ matches_domain rs.domains host
        ])
        then true
        else book_hit host rs.book

    abbrev pub lacks_rules : RuleSet Book Selector → Bool
    unfolding has_no_domains has_no_ips
    lacks_rules rs =
        has_no_domains rs.domains
        && (has_no_ips rs.ips && elim rs.book [ none ↦ true | some b ↦ false ])
