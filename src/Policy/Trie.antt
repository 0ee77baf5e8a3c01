-- ===== src/Policy/Trie.antt =====
-- The label trie of src/policy: `LabelNode` of domain.rs with a flag at each node, `IndexedNode` of
-- mod.rs with an optional route index. The children of a node are a map from label to node.
pub mod Update
pub mod Entries
use rove.Base.{
  ℕ, zero, suc, ◌+◌, ◌-◌, ◌*◌, ◌/◌, ◌%◌, ◌^◌, ◌≤◌, ◌<◌, min, max, bit_and, bit_or, bit_xor,
}
use rove.Base.{
  ◌≡◌, refl, sym, ap, ◌∙◌, ◌≢◌, ◌↔◌, ◌⊎◌, inl, inr, Bool, true, false, not, ◌&&◌, ◌||◌, Option,
  none, some, List, [], ◌∷◌, ◌++◌, map, arith,
}
use rove.Base.{
  ltb, leb, ◌==◌, if◌then◌else◌, ltb→lt, lt→ltb, leb→le, le→leb, le→ltb_false, ==_iff, Bool-cases,
  Option-cases,
}
use rove.Base.{
  drop-append_add, All-take, All-append, replicate, length, get_elem?, set, take, drop, any, all,
  All, length-append, length-take, length-drop, take-append_length, drop-append_length,
  take-append-drop, any-append, length-set, get_elem?-set_self, get_elem?-set_ne,
}
use rove.Base.Eq.{Eq, same, same_refl, list_beq, list_beq_iff, member, nat_eq, list_eq}
use rove.Base.Text.{
  Text, is_empty, to_ascii_lowercase, trim, trim_matches, strip_prefix, contains_text, split_on,
  split_once, join_with,
}
use rove.Base.Text.Split.{IsFree, split_on-IsFree, split_on-join_with}

mutual
  pub data Trie (A : Type 0) : Type 0 where
    node : A → Children A → Trie A

  pub data Children (A : Type 0) : Type 0 where
    nil : Children A
    child : Text → Trie A → Children A → Children A

module _ {A : Type 0} where
  abbrev pub payload : Trie A → A
  payload (node v cs) = v

  abbrev pub children : Trie A → Children A
  children (node v cs) = cs

  unfoldable pub get_child : Text → Children A → Option (Trie A)
  get_child l nil = none
  get_child l (child k t cs) = if same k l then some t else get_child l cs

  -- `children.entry(l).or_default()`, changed by `f`
  unfoldable pub update_child : Trie A → Text → (Trie A → Trie A) → Children A → Children A
  update_child empty l f nil = child l (f empty) nil
  update_child empty l f (child k t cs) =
      if same k l then child k (f t) cs else child k t (update_child empty l f cs)

  -- Walks the labels, creating nodes as `d` on the way, and changes the payload at the end.
  unfoldable pub update_at : A → List Text → (A → A) → Trie A → Trie A
  unfolding update_child
  update_at d [] f (node v cs) = node (f v) cs
  update_at d (l ∷ ls) f (node v cs) = node v (update_child (node d nil) l (update_at d ls f) cs)

  -- The payload at the end of a path, `d` where there is no node.
  unfoldable pub value_at : A → List Text → Trie A → A
  unfolding get_child
  value_at d [] (node v cs) = v
  value_at d (l ∷ ls) (node v cs) = elim (get_child l cs) [ none ↦ d | some t ↦ value_at d ls t ]

  -- Each path with its payload, a node before its children.
  unfoldable mutual
    pub entries : Trie A → List (List Text × A)
    entries (node v cs) = ([], v) ∷ entries_children cs

    pub entries_children : Children A → List (List Text × A)
    entries_children nil = []
    entries_children (child l t cs) =
        map (λ (e : List Text × A). (l ∷ e.0, e.1)) (entries t) ++ entries_children cs
