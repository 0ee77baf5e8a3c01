-- ===== src/Policy/RouteIndex/Names.antt =====
-- What a domain matcher hands to the index: `contribute_suffixes` and `IndexedSuffix::add`.
use rove.Base.{ℕ, min}
use rove.Base.{
  ◌≡◌, refl, sym, ap, ◌∙◌, inl, inr, Bool, true, false, Option, none, some, List, [], ◌∷◌, arith,
}
use rove.Base.{if◌then◌else◌, Bool-cases}
use rove.Base.{All}
use rove.Base.Eq.{same, same_refl, list_beq_iff, nat_eq, list_eq}
use rove.Base.Text.{Text, is_empty, split_on, join_with}
use rove.Policy.Trie.{Trie, node, nil}
use rove.Policy.Domain.{contribute_suffixes, normalize, labels}
use rove.Net.{ip_eq}
use mathlib.Core.List.{reverse, reverse-reverse}
use rove.Base.Text.Split.{join_with-split_on, split_on-nonempty}
use rove.Policy.Trie.{value_at, entries}
use rove.Policy.Trie.Update.{value_at-update_at}
use rove.Policy.Trie.Entries.{IsDistinct, update_at-IsDistinct, listed, listed-entries}
use rove.Policy.Domain.{
  walk, dot, SubDomainMatcher, insert_suffix, add_suffix, no_suffixes, suffix_names, without_star,
  matches_suffix,
}
use rove.Policy.RouteIndex.{best_below, best_suffix, add_indexed, note_all, no_route, map_or_min}
use rove.Policy.RouteIndex.Suffix.{
  least_prefix-noted, walk-any_prefix, or_none, path_route, best_below-least_prefix,
}

-- The labels of a name that is not empty.
abbrev pub IsName : List Text → Type 0
unfolding labels
IsName p = (s : Text) × (p ≡ labels s) × (is_empty s ≡ false)

-- No node has a label twice, and the marked paths are names.
abbrev pub IsBuilt : SubDomainMatcher → Type 0
IsBuilt m = IsDistinct m.root × ((p : List Text) → value_at false p m.root ≡ true → IsName p)

pub no_suffixes-IsBuilt : IsBuilt no_suffixes
unfolding value_at
no_suffixes-IsBuilt = (tt, λ p h. empty p h)
  where
    empty : (p : List Text) → value_at false p (node false nil) ≡ true → IsName p
    empty [] h = cc
    empty (l ∷ p) h = cc

insert_suffix-IsBuilt : (m : SubDomainMatcher) (s : Text) → IsBuilt m → IsBuilt (insert_suffix m s)
unfolding insert_suffix
insert_suffix-IsBuilt m s (d, h) = elim (Bool-cases (is_empty s)) [
  | inl none' ↦ rw none' (d, h)
  | inr some' ↦ rw some' (
    update_at-IsDistinct false (labels s) (λ t. true) m.root d,
    λ p k. elim (Bool-cases (same (labels s) p)) [
      | inl here ↦ (s, sym ((list_beq_iff (labels s) p).0 here), some')
      | inr away ↦
          h p (ground (arith, k, away, value_at-update_at false (labels s) p (λ t. true) m.root))
    ],
  )
]

pub add_suffix-IsBuilt : (m : SubDomainMatcher) (s : Text) → IsBuilt m → IsBuilt (add_suffix m s)
unfolding add_suffix
add_suffix-IsBuilt m s = insert_suffix-IsBuilt m (without_star (normalize s))

-- The marked entries of a list are names.
abbrev AreNames : List (List Text × Bool) → Type 0
AreNames = All (λ (e : List Text × Bool). e.1 ≡ true → IsName e.0)

listed-AreNames :
    (es : List (List Text × Bool)) → ((p : List Text) → listed p es ≡ true → IsName p) → AreNames es
listed-AreNames [] h = tt
listed-AreNames (e ∷ es) h = (
  λ k. h e.0 (ground (arith, k, same_refl e.0)),
  listed-AreNames es (λ p k. h p (ground (arith, k))),
)

-- The labels of a name that is joined from its labels are these labels.
joined_name : (s : Text) → join_with dot (reverse (labels s)) ≡ s
unfolding labels
joined_name s = ap (join_with dot) (reverse-reverse (split_on dot s)) ∙ join_with-split_on dot s

is_empty-nil : {A : Type 0} (xs : List A) → is_empty xs ≡ true → xs ≡ []
is_empty-nil [] h = refl
is_empty-nil (a ∷ xs) h = cc

labels-nonempty : (s : Text) → is_empty (labels s) ≡ false
unfolding labels
labels-nonempty s = elim (Bool-cases (is_empty (reverse (split_on dot s)))) [
  | inl bare ↦ absurd (
      split_on-nonempty dot s (
        sym (reverse-reverse (split_on dot s))
        ∙ ap reverse (is_empty-nil (reverse (split_on dot s)) bare)))
  | inr full ↦ full
]

noted :
    (idx : ℕ) (b : Bool) (o : Option ℕ)
    → or_none (if b then map_or_min o idx else o) ≡ (if b then min idx (or_none o) else or_none o)
unfolding map_or_min
noted idx true none = omega arith
noted idx false none = refl
noted idx b (some i) = ground arith

path_route-add_indexed :
    (t : Trie (Option ℕ)) (s : Text) (idx : ℕ) (p : List Text)
    → is_empty s ≡ false
    → path_route (add_indexed t s idx) p
      ≡ (if same (labels s) p then min idx (path_route t p) else path_route t p)
unfolding add_indexed
path_route-add_indexed t s idx p h = rw h (
    ap or_none (value_at-update_at none (labels s) p (λ best. map_or_min best idx) t)
    ∙ noted idx (same (labels s) p) (value_at none p t))

-- One marked entry hands over its name, and that notes the entry's path.
note_name :
    (es : List (List Text × Bool)) (t : Trie (Option ℕ)) (idx : ℕ) (q : List Text)
    → IsName q
    → note_all (λ t host. add_indexed t host idx) t (suffix_names ((q, true) ∷ es))
      ≡ note_all
          (λ t host. add_indexed t host idx)
          (add_indexed t (join_with dot (reverse q)) idx)
          (suffix_names es)
unfolding note_all suffix_names IsName
note_name es t idx q (s, e, full) = rw (e, labels-nonempty s) refl

path_route-name :
    (t : Trie (Option ℕ)) (idx : ℕ) (q p : List Text)
    → IsName q
    → path_route (add_indexed t (join_with dot (reverse q)) idx) p
      ≡ (if same q p then min idx (path_route t p) else path_route t p)
unfolding IsName
path_route-name t idx q p (s, e, full) =
    ap (λ r. path_route (add_indexed t (join_with dot (reverse r)) idx) p) e
    ∙ ap (λ r. path_route (add_indexed t r idx) p) (joined_name s)
    ∙ path_route-add_indexed t s idx p full
    ∙ ap (λ r. if same r p then min idx (path_route t p) else path_route t p) (sym e)

note_plain :
    (es : List (List Text × Bool)) (q : List Text)
    → suffix_names ((q, false) ∷ es) ≡ suffix_names es
unfolding suffix_names
note_plain es q = refl

path_route-note_all :
    (es : List (List Text × Bool)) (t : Trie (Option ℕ)) (idx : ℕ) (p : List Text)
    → AreNames es
    → path_route (note_all (λ t host. add_indexed t host idx) t (suffix_names es)) p
      ≡ (if listed p es then min idx (path_route t p) else path_route t p)
path_route-note_all [] t idx p h = unfold note_all suffix_names in refl
path_route-note_all ((q, false) ∷ es) t idx p (h, hs) =
    ap (λ ns. path_route (note_all (λ t host. add_indexed t host idx) t ns) p) (note_plain es q)
    ∙ path_route-note_all es t idx p hs
    ∙ ground arith
path_route-note_all ((q, true) ∷ es) t idx p (h, hs) =
    ap (λ u. path_route u p) (note_name es t idx q (h refl))
    ∙ path_route-note_all es (add_indexed t (join_with dot (reverse q)) idx) idx p hs
    ∙ ground (arith, path_route-name t idx q p (h refl))

-- The route of a host by its suffixes, `no_route` for none.
abbrev pub suffix_route : Trie (Option ℕ) → Text → ℕ
suffix_route t host = or_none (best_suffix t host)

-- Handing the suffixes of a matcher to the index under a route lowers a host's route to it just
-- when the matcher has a suffix of the host.
pub suffix_route-note_all :
    (m : SubDomainMatcher) (t : Trie (Option ℕ)) (idx : ℕ) (host : Text)
    → IsBuilt m
    → suffix_route (note_all (λ t host. add_indexed t host idx) t (contribute_suffixes m)) host
      ≡ (if matches_suffix m host then min idx (suffix_route t host) else suffix_route t host)
unfolding best_suffix matches_suffix contribute_suffixes
suffix_route-note_all m t idx host (d, h) = elim (Bool-cases (is_empty host)) [
  | inl bare ↦ rw bare refl
  | inr full ↦ rw full (below (labels host))
]
  where
    after : Trie (Option ℕ)
    after = note_all (λ t host. add_indexed t host idx) t (suffix_names (entries m.root))

    names : AreNames (entries m.root)
    names = listed-AreNames (entries m.root) (λ p k. h p (sym (listed-entries m.root d p) ∙ k))

    below :
        (ls : List Text)
        → or_none (best_below after ls none) ≡ (
            if walk m.root ls false
            then min idx (or_none (best_below t ls none))
            else or_none (best_below t ls none))
    below ls =
        best_below-least_prefix after ls none
        ∙ ap (min no_route) (
            least_prefix-noted (λ p. value_at false p m.root) idx (path_route t) (path_route after)
              ls
              (λ p.
                path_route-note_all (entries m.root) t idx p names
                ∙ ap (λ b. if b then min idx (path_route t p) else path_route t p)
                    (listed-entries m.root d p)))
        ∙ ground (arith, walk-any_prefix m.root ls false, best_below-least_prefix t ls none)
