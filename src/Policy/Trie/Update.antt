-- ===== src/Policy/Trie/Update.antt =====
-- What a change at one path does at the others.
use rove.Base.{
  ◌≡◌, refl, sym, ap, ◌∙◌, Bool, true, false, ◌&&◌, Option, none, some, List, [], ◌∷◌, arith,
}
use rove.Base.{if◌then◌else◌}
use rove.Base.Eq.{same, list_beq_iff, nat_eq, list_eq}
use rove.Base.Text.{Text}
use rove.Policy.Trie.{
  Trie, Children, node, nil, child, get_child, update_child, update_at, value_at,
}

module _ {A : Type 0} (d : A) where
  value_at-fresh : (ls : List Text) → value_at d ls (node d nil) ≡ d
  unfolding value_at
  value_at-fresh [] = refl
  value_at-fresh (l ∷ ls) = refl

  unfoldable pub value_child : List Text → Option (Trie A) → A
  value_child ls none = d
  value_child ls (some t) = value_at d ls t

  pub value_at-cons :
      (l : Text) (ls : List Text) (v : A) (cs : Children A)
      → value_at d (l ∷ ls) (node v cs) ≡ value_child ls (get_child l cs)
  unfolding value_at value_child
  value_at-cons l ls v cs = ground arith

  -- The child `l` changes by `g`; a missing one is created first.
  child_after : (Trie A → Trie A) → Option (Trie A) → Option (Trie A)
  child_after g none = some (g (node d nil))
  child_after g (some t) = some (g t)

  get_child-update_child :
      (k l : Text) (g : Trie A → Trie A) (cs : Children A)
      → get_child l (update_child (node d nil) k g cs)
        ≡ (if same k l then child_after g (get_child l cs) else get_child l cs)
  unfolding get_child update_child child_after
  get_child-update_child k l g nil = ground arith
  get_child-update_child k l g (child j t cs) =
      ground (
        arith,
        list_beq_iff j k,
        list_beq_iff j l,
        list_beq_iff k l,
        get_child-update_child k l g cs,
      )

  -- A change at one path leaves the payload at every other path as it was.
  pub value_at-update_at :
      (p q : List Text) (f : A → A) (t : Trie A)
      → value_at d q (update_at d p f t) ≡ (if same p q then f (value_at d q t) else value_at d q t)
  unfolding update_at value_child child_after
  value_at-update_at [] [] f (node v cs) = unfold value_at in refl
  value_at-update_at [] (l ∷ ls) f (node v cs) = unfold value_at in refl
  value_at-update_at (k ∷ ks) [] f (node v cs) = unfold value_at in refl
  value_at-update_at (k ∷ ks) (l ∷ ls) f (node v cs) =
      value_at-cons l ls v (update_child (node d nil) k (update_at d ks f) cs)
      ∙ ap (value_child ls) (get_child-update_child k l (update_at d ks f) cs)
      ∙ under (λ t. value_at-update_at ks ls f t) (same k l) (get_child l cs)
      ∙ ap (λ w. if same k l && same ks ls then f w else w) (sym (value_at-cons l ls v cs))
    where
      under :
          ((t : Trie A)
            → value_at d ls (update_at d ks f t)
              ≡ (if same ks ls then f (value_at d ls t) else value_at d ls t))
          → (b : Bool) (o : Option (Trie A))
          → value_child ls (if b then child_after (update_at d ks f) o else o)
            ≡ (if b && same ks ls then f (value_child ls o) else value_child ls o)
      under ih false o = refl
      under ih true none = rw value_at-fresh at (ih (node d nil))
      under ih true (some t) = ih t
