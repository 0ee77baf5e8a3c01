-- ===== src/Policy/Trie/Entries.antt =====
-- The entries of a trie whose nodes have no label twice are what its paths lead to.
use rove.Base.{
  ◌≡◌, refl, sym, ap, ◌∙◌, inl, inr, Bool, false, ◌&&◌, ◌||◌, none, List, [], ◌∷◌, map, arith,
}
use rove.Base.{Bool-cases}
use rove.Base.{any, any-append}
use rove.Base.Eq.{same, list_beq_iff, nat_eq, list_eq}
use rove.Base.Text.{Text}
use rove.Policy.Trie.Update.{value_child, value_at-cons}
use rove.Policy.Trie.{
  Trie, Children, node, nil, child, get_child, update_child, update_at, value_at, entries,
  entries_children,
}

module _ {A : Type 0} where
  abbrev pub has_label : Text → Children A → Bool
  has_label l nil = false
  has_label l (child k t cs) = same k l || has_label l cs

  abbrev mutual
    pub IsDistinct : Trie A → Type 0
    IsDistinct (node v cs) = AreDistinct cs

    pub AreDistinct : Children A → Type 0
    AreDistinct nil = Unit
    AreDistinct (child k t cs) = (has_label k cs ≡ false) × IsDistinct t × AreDistinct cs

  has_label-update_child :
      (l k : Text) (d : Trie A) (g : Trie A → Trie A) (cs : Children A)
      → has_label l (update_child d k g cs) ≡ (has_label l cs || same k l)
  unfolding update_child
  has_label-update_child l k d g nil = ground arith
  has_label-update_child l k d g (child j t cs) = ground (
    arith,
    has_label-update_child l k d g cs,
    list_beq_iff j k,
    list_beq_iff j l,
    list_beq_iff k l,
  )

  update_child-AreDistinct :
      (k : Text) (d : Trie A) (g : Trie A → Trie A) (cs : Children A)
      → IsDistinct (g d)
      → ((t : Trie A) → IsDistinct t → IsDistinct (g t))
      → AreDistinct cs
      → AreDistinct (update_child d k g cs)
  unfolding update_child
  update_child-AreDistinct k d g nil hd hg h = (refl, hd, tt)
  update_child-AreDistinct k d g (child j t cs) hd hg (new, ht, h) = elim (Bool-cases (same j k)) [
    | inl here ↦ rw here (new, hg t ht, h)
    | inr on ↦ rw on (
      has_label-update_child j k d g cs ∙ ground (arith, new, list_beq_iff j k, list_beq_iff k j),
      ht,
      update_child-AreDistinct k d g cs hd hg h,
    )
  ]

  -- A change at a path keeps the labels of each node apart.
  pub update_at-IsDistinct :
      (d : A) (p : List Text) (f : A → A) (t : Trie A)
      → IsDistinct t
      → IsDistinct (update_at d p f t)
  unfolding update_at
  update_at-IsDistinct d [] f (node v cs) h = h
  update_at-IsDistinct d (l ∷ ls) f (node v cs) h =
      update_child-AreDistinct l (node d nil) (update_at d ls f) cs
        (update_at-IsDistinct d ls f (node d nil) tt) (λ t. update_at-IsDistinct d ls f t) h

-- The flag of path `p` among the entries.
abbrev pub listed : List Text → List (List Text × Bool) → Bool
listed p = any (λ (e : List Text × Bool). same e.0 p && e.1)

listed-under :
    (l k : Text) (ls : List Text) (es : List (List Text × Bool))
    → listed (l ∷ ls) (map (λ (e : List Text × Bool). (k ∷ e.0, e.1)) es)
      ≡ (same k l && listed ls es)
listed-under l k ls [] = ground arith
listed-under l k ls (e ∷ es) = ground (arith, listed-under l k ls es)

listed-under_nil :
    (k : Text) (es : List (List Text × Bool))
    → listed [] (map (λ (e : List Text × Bool). (k ∷ e.0, e.1)) es) ≡ false
listed-under_nil k [] = refl
listed-under_nil k (e ∷ es) = listed-under_nil k es

listed-children_nil : (cs : Children Bool) → listed [] (entries_children cs) ≡ false
unfolding entries_children
listed-children_nil nil = refl
listed-children_nil (child k t cs) =
    any-append (λ (e : List Text × Bool). same e.0 [] && e.1)
      (map (λ (e : List Text × Bool). (k ∷ e.0, e.1)) (entries t)) (entries_children cs)
    ∙ ground (arith, listed-under_nil k (entries t), listed-children_nil cs)

no_child : (l : Text) (cs : Children Bool) → has_label l cs ≡ false → get_child l cs ≡ none
unfolding get_child
no_child l nil h = refl
no_child l (child k t cs) h = ground (arith, no_child l cs)

listed-node_nil :
    (v : Bool) (cs : Children Bool)
    → listed [] (entries (node v cs)) ≡ value_at false [] (node v cs)
unfolding value_at entries
listed-node_nil v cs = ground (arith, listed-children_nil cs)

-- The first child has its own entries, and they are the only ones under its label.
first_or_later :
    (k l : Text) (ls : List Text) (t : Trie Bool) (cs : Children Bool)
    → has_label k cs ≡ false
    → listed ls (entries t) ≡ value_at false ls t
    → listed (l ∷ ls) (entries_children cs) ≡ value_child false ls (get_child l cs)
    → (same k l && listed ls (entries t) || listed (l ∷ ls) (entries_children cs))
      ≡ value_child false ls (get_child l (child k t cs))
unfolding get_child value_child
first_or_later k l ls t cs new here later = elim (Bool-cases (same k l)) [
  | inl at ↦
      let fresh : has_label l cs ≡ false = rw (← (list_beq_iff k l).0 at) new in
      let bare : value_child false ls (get_child l cs) ≡ false =
        ap (value_child false ls) (no_child l cs fresh) in
      rw (at, later, bare) (ground (arith, here))
  | inr on ↦ rw on later
]

mutual
  unfolding entries get_child value_child

  listed-entries_at :
      (t : Trie Bool) → IsDistinct t → (p : List Text) → listed p (entries t) ≡ value_at false p t
  listed-entries_at (node v cs) h [] = listed-node_nil v cs
  listed-entries_at (node v cs) h (l ∷ ls) =
      listed-entries_children cs h l ls ∙ sym (value_at-cons false l ls v cs)

  listed-entries_children :
      (cs : Children Bool)
      → AreDistinct cs
      → (l : Text) (ls : List Text)
      → listed (l ∷ ls) (entries_children cs) ≡ value_child false ls (get_child l cs)
  listed-entries_children nil h l ls = refl
  listed-entries_children (child k t cs) (new, ht, h) l ls =
      any-append (λ (e : List Text × Bool). same e.0 (l ∷ ls) && e.1)
        (map (λ (e : List Text × Bool). (k ∷ e.0, e.1)) (entries t)) (entries_children cs)
      ∙ ap (λ b. b || listed (l ∷ ls) (entries_children cs)) (listed-under l k ls (entries t))
      ∙ first_or_later k l ls t cs new (listed-entries_at t ht ls)
          (listed-entries_children cs h l ls)

-- The entries of a trie hold each path with the flag that the path leads to.
pub listed-entries :
    (t : Trie Bool) → IsDistinct t → (p : List Text) → listed p (entries t) ≡ value_at false p t
listed-entries = listed-entries_at
