-- ===== src/Reverse/Udp/Contacts.antt =====
-- The destinations that an association remembers.
use rove.Base.{◌≤◌}
use rove.Base.{◌≡◌, refl, sym, ◌≢◌, ◌⊎◌, inl, inr, true, false, ◌||◌, List, [], ◌∷◌, ◌++◌, arith}
use rove.Base.{ltb, if◌then◌else◌, Bool-cases}
use rove.Base.{All-append, length, All, length-append}
use rove.Base.{IsDistinct}
use rove.Base.Eq.{Eq, same_refl, member}
use rove.Net.{SocketAddr, socket_eq}
use rove.Reverse.Udp.{Contacted, contact, contains, evict_oldest, discard_addr, no_contacts}

-- The set holds what the queue holds, each destination once, and no more than the limit.
pub record IsWell (c : Contacted) : Type 0 where
  pub agree : c.set ≡ c.order
  pub distinct : IsDistinct c.order
  pub bounded : length c.order ≤ 512

module _ {A : Type 0} ⦃e : Eq A⦄ where
  pub member-append : (a : A) (xs ys : List A) → member a (xs ++ ys) ≡ (member a xs || member a ys)
  member-append a [] ys = refl
  member-append a (x ∷ xs) ys = ground (arith, member-append a xs ys)

  All-differ-member : (a : A) (xs : List A) → All (λ y. a ≢ y) xs → member a xs ≡ false
  All-differ-member a [] h = refl
  All-differ-member a (x ∷ xs) (h, hs) = ground (arith, e.beq_iff x a, All-differ-member a xs hs)

  member-All-differ : (a : A) (xs : List A) → member a xs ≡ false → All (λ y. y ≢ a) xs
  member-All-differ a [] h = tt
  member-All-differ a (x ∷ xs) h =
      (λ k. ground (arith, e.beq_iff x a), member-All-differ a xs (ground arith))

  pub IsDistinct-append :
      (xs : List A) (a : A) → IsDistinct xs → member a xs ≡ false → IsDistinct (xs ++ a ∷ [])
  IsDistinct-append [] a h k = (tt, tt)
  IsDistinct-append (x ∷ xs) a (h, hs) k =
      let (new, rest) = member-All-differ a (x ∷ xs) k in
      (All-append (λ y. x ≢ y) xs (a ∷ []) h (new, tt), IsDistinct-append xs a hs (ground arith))

discard_addr-absent :
    (a : SocketAddr) (xs : List SocketAddr) → member a xs ≡ false → discard_addr a xs ≡ xs
unfolding discard_addr
discard_addr-absent a [] h = refl
discard_addr-absent a (x ∷ xs) h = ground (arith, discard_addr-absent a xs)

abbrev drop_oldest : List SocketAddr → List SocketAddr
drop_oldest [] = []
drop_oldest (old ∷ rest) = if ltb 512 (length (old ∷ rest)) then rest else old ∷ rest

-- With queue and set alike, the oldest goes from both.
evict_oldest-order :
    (xs : List SocketAddr)
    → IsDistinct xs
    → evict_oldest record { order = xs; set = xs }
      ≡ record { order = drop_oldest xs; set = drop_oldest xs }
unfolding evict_oldest discard_addr
evict_oldest-order [] d = refl
evict_oldest-order (old ∷ rest) (h, d) = elim (Bool-cases (ltb 512 (length (old ∷ rest)))) [
  | inl over ↦
      rw (over, same_refl old, discard_addr-absent old rest (All-differ-member old rest h)) refl
  | inr under ↦ rw under refl
]

drop_oldest-IsDistinct : (xs : List SocketAddr) → IsDistinct xs → IsDistinct (drop_oldest xs)
drop_oldest-IsDistinct [] d = tt
drop_oldest-IsDistinct (x ∷ xs) (h, d) = elim (Bool-cases (ltb 512 (length (x ∷ xs)))) [
  | inl over ↦ rw (over, IsDistinct) d
  | inr under ↦ rw (under, IsDistinct) (h, d)
]

length-drop_oldest : (xs : List SocketAddr) → length xs ≤ 513 → length (drop_oldest xs) ≤ 512
length-drop_oldest [] h = omega arith
length-drop_oldest (x ∷ xs) h = ground arith

member-drop_oldest :
    (b : SocketAddr) (xs : List SocketAddr) → member b (drop_oldest xs) ≡ true → member b xs ≡ true
member-drop_oldest b [] h = h
member-drop_oldest b (x ∷ xs) h = ground arith

newest_kept : (a : SocketAddr) (xs : List SocketAddr) → member a (drop_oldest (xs ++ a ∷ [])) ≡ true
newest_kept a [] = ground (arith, same_refl a)
newest_kept a (x ∷ xs) =
    ground (arith, same_refl a, member-append a xs (a ∷ []), length-append xs (a ∷ []))

contact-order :
    (c : Contacted) (a : SocketAddr)
    → IsWell c
    → contact c a ≡ (
        if member a c.order then c else record {
          order = drop_oldest (c.order ++ a ∷ []);
          set = drop_oldest (c.order ++ a ∷ []);
        })
unfolding contact
contact-order c a w = elim (Bool-cases (member a c.order)) [
  | inl old ↦ rw (w.agree, old) refl
  | inr new ↦
      rw (w.agree, new)
        (evict_oldest-order (c.order ++ a ∷ []) (IsDistinct-append c.order a w.distinct new))
]

pub no_contacts-IsWell : IsWell no_contacts
unfolding no_contacts
no_contacts-IsWell = record { agree = refl; distinct = tt; bounded = omega arith }

-- Remembering a destination keeps the queue and the set alike and within the limit; the destination
-- is then remembered, and every other one that is was remembered before.
pub contact-IsWell :
    (c : Contacted) (a : SocketAddr)
    → IsWell c
    → IsWell (contact c a)
      × (contains (contact c a) a ≡ true)
      × ((b : SocketAddr) → contains (contact c a) b ≡ true → (b ≡ a) ⊎ (contains c b ≡ true))
unfolding contains
contact-IsWell c a w = elim (Bool-cases (member a c.order)) [
  | inl old ↦
      let same_state : contact c a ≡ c = rw (contact-order c a w, old) refl in
      rw same_state (w, rw (w.agree) old, λ b h. inr h)
  | inr new ↦
      let kept = drop_oldest (c.order ++ a ∷ []) in
      let e : contact c a ≡ record { order = kept; set = kept } =
        rw (contact-order c a w, new) refl in
      rw e (
        record {
          agree = refl;
          distinct =
              drop_oldest-IsDistinct (c.order ++ a ∷ [])
                (IsDistinct-append c.order a w.distinct new);
          bounded =
              length-drop_oldest (c.order ++ a ∷ [])
                (omega (arith, w.bounded, length-append c.order (a ∷ [])));
        },
        newest_kept a c.order,
        λ b h. from_append b (member-drop_oldest b (c.order ++ a ∷ []) h),
      )
]
  where
    from_append :
        (b : SocketAddr) → member b (c.order ++ a ∷ []) ≡ true → (b ≡ a) ⊎ (member b c.set ≡ true)
    from_append b h = elim (Bool-cases (member b c.order)) [
      | inl old ↦ inr (rw (w.agree) old)
      | inr absent ↦ inl (
          let last : socket_eq.beq a b ≡ true = ground (arith, member-append b c.order (a ∷ [])) in
          sym ((socket_eq.beq_iff a b).0 last))
    ]
