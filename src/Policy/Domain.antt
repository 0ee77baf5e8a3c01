-- ===== src/Policy/Domain.antt =====
-- The domain matcher, src/policy/domain.rs. A set is a list without repetition, a map from label to
-- node is the children of a `Trie`.
use rove.Base.{ℕ, ◌+◌}
use rove.Base.{Bool, true, false, not, ◌&&◌, none, some, List, [], ◌∷◌, ◌++◌}
use rove.Base.{◌==◌, if◌then◌else◌}
use rove.Base.{any}
use rove.Base.Eq.{list_beq, member, nat_eq, list_eq}
use rove.Base.Bytes.{ascii}
use rove.Base.Text.{
  Text, is_empty, to_ascii_lowercase, trim, trim_matches, strip_prefix, contains_text, split_on,
  split_once, join_with,
}
use rove.Policy.Trie.{Trie, node, nil, get_child, update_at, value_at, entries}
use mathlib.Core.List.{reverse}

abbrev pub dot : ℕ
dot = b'.'

unfoldable pub normalize : Text → Text
normalize s = to_ascii_lowercase (trim_matches dot (trim s))

-- The labels of a name from the top-level domain inward.
unfoldable pub labels : Text → List Text
labels s = reverse (split_on dot s)

pub record SubDomainMatcher : Type 0 where
  pub root : Trie Bool
  pub len : ℕ

abbrev pub no_suffixes : SubDomainMatcher
no_suffixes = record { root = node false nil; len = 0 }

unfoldable pub insert_suffix : SubDomainMatcher → Text → SubDomainMatcher
unfolding labels
insert_suffix m s = if is_empty s then m else record {
  root = update_at false (labels s) (λ terminal. true) m.root;
  len = if value_at false (labels s) m.root then m.len else m.len + 1;
}

abbrev pub without_star : Text → Text
without_star s = elim (strip_prefix (b'*' ∷ dot ∷ []) s) [ none ↦ s | some rest ↦ rest ]

unfoldable pub add_suffix : SubDomainMatcher → Text → SubDomainMatcher
unfolding insert_suffix normalize
add_suffix m s = insert_suffix m (without_star (normalize s))

-- The walk of `matches_normalized` below one node: `matched` is what was met so far.
unfoldable pub walk : Trie Bool → List Text → Bool → Bool
unfolding get_child
walk t [] matched = matched
walk (node v cs) (l ∷ ls) matched = elim (get_child l cs) [
  | none ↦ matched
  | some (node w ds) ↦ walk (node w ds) ls (if w then true else matched)
]

unfoldable pub matches_suffix : SubDomainMatcher → Text → Bool
unfolding walk labels
matches_suffix m s = if is_empty s then false else walk m.root (labels s) false

-- The names that `contribute_suffixes` hands to its callback, in the order of the walk.
unfoldable pub suffix_names : List (List Text × Bool) → List Text
suffix_names [] = []
suffix_names ((p, terminal) ∷ es) =
    if terminal && not (is_empty p)
    then join_with dot (reverse p) ∷ suffix_names es
    else suffix_names es

unfoldable pub contribute_suffixes : SubDomainMatcher → List Text
unfolding suffix_names entries
contribute_suffixes m = suffix_names (entries m.root)

pub record DomainMatcher : Type 0 where
  pub full : List Text
  pub domain : SubDomainMatcher
  pub keyword : List Text

unfoldable pub empty_domains : DomainMatcher
empty_domains = record { full = []; domain = no_suffixes; keyword = [] }

-- The `match` of `add` on the kind of a rule.
unfoldable pub add_typed : DomainMatcher → Text → Text → DomainMatcher
unfolding add_suffix normalize
add_typed m typ pattern' =
    if list_beq typ (ascii "full")
    then record m {
      full =
          if member (normalize pattern') m.full then m.full else m.full ++ normalize pattern' ∷ [];
    }
    else (if list_beq typ (ascii "keyword")
        then (if is_empty (normalize pattern')
            then m
            else record m { keyword = m.keyword ++ normalize pattern' ∷ [] })
        else record m { domain = add_suffix m.domain pattern' })

unfoldable pub add_rule : DomainMatcher → Text → DomainMatcher
unfolding add_typed
add_rule m rule = elim (split_once b':' rule) [
  | some (typ, pattern') ↦ add_typed m typ pattern'
  | none ↦ add_typed m (ascii "domain") rule
]

unfoldable pub matches_normalized : DomainMatcher → Text → Bool
unfolding matches_suffix
matches_normalized m n =
    if is_empty n
    then false
    else (if member n m.full
        then true
        else (if matches_suffix m.domain n then true else any (λ k. contains_text k n) m.keyword))

unfoldable pub matches_domain : DomainMatcher → Text → Bool
unfolding matches_normalized normalize
matches_domain m host = matches_normalized m (normalize host)

unfoldable pub has_no_domains : DomainMatcher → Bool
has_no_domains m = is_empty m.full && (m.domain.len == 0 && is_empty m.keyword)
