-- ===== src/Model/Egress/Order.antt =====
-- The members of a compiled chain, `compile_chain` of src/model.rs.
use rove.Base.{ℕ, suc, ◌≤◌, ◌<◌}
use rove.Base.{◌≡◌, refl, ap, ◌∙◌, inl, inr, Bool, true, false, not, ◌||◌, List, [], ◌∷◌, arith}
use rove.Base.{leb, ◌==◌, Bool-cases}
use rove.Base.{length, All}
use mathlib.Core.Path.{subst}
use rove.Base.Eq.{member, nat_eq, list_eq}
use rove.Base.Text.{Text, is_empty, trim}
use rove.Base.Result.{Result, ok, err, ◌>>=◌, ensure, ok-inj}
use rove.Model.Raw.{RawChainMember}
use rove.Model.Egress.{Upstream, Chain, ChainMember, CompileError}
use rove.Model.Egress.{
  names_chain, compile_chain, compile_members, sort_by_priority, insert_by_priority,
  compile_upstream,
}

abbrev pub priorities : List ChainMember → List ℕ
priorities [] = []
priorities (m ∷ ms) = m.priority ∷ priorities ms

abbrev pub Ascending : List ℕ → Type 0
Ascending [] = Unit
Ascending (n ∷ ns) = All (λ m. n < m) ns × Ascending ns

-- No number of the list is in `seen` or stands in it twice.
abbrev Fresh : List ℕ → List ℕ → Type 0
Fresh seen [] = Unit
Fresh seen (n ∷ ns) = (member n seen ≡ false) × Fresh (n ∷ seen) ns

compile_members-Fresh :
    (raw : List RawChainMember) (ids : List Text) (seen : List ℕ) (ms : List ChainMember)
    → compile_members raw ids seen ≡ ok ms
    → Fresh seen (priorities ms) × (length ms ≡ length raw)
unfolding compile_members
compile_members-Fresh [] ids seen [] h = (tt, refl)
compile_members-Fresh [] ids seen (m ∷ ms) h = cc
compile_members-Fresh (r ∷ raw) ids seen ms h =
    passed (not (is_empty (trim r.id))) (not (member (trim r.id) ids)) (member r.priority seen) refl
      (not (names_chain r.backend)) (compile_upstream r.backend)
      (compile_members raw (trim r.id ∷ ids) (r.priority ∷ seen))
      (λ rest e. compile_members-Fresh raw (trim r.id ∷ ids) (r.priority ∷ seen) rest e) h
  where
    passed :
        (has_id new_id old_priority : Bool)
        → member r.priority seen ≡ old_priority
        → (concrete : Bool) (compiled : Result CompileError Upstream)
          (later : Result CompileError (List ChainMember))
        → ((rest : List ChainMember)
            → later ≡ ok rest
            → Fresh (r.priority ∷ seen) (priorities rest) × (length rest ≡ length raw))
        → (do
          _ ← ensure has_id CompileError.member_id_required
          _ ← ensure new_id CompileError.duplicate_member_id
          _ ← ensure (not old_priority) CompileError.duplicate_priority
          _ ← ensure concrete CompileError.nested_chain
          up ← compiled
          members ← later
          ok (record { id = trim r.id; priority = r.priority; upstream = up } ∷ members))
          ≡ ok ms
        → Fresh seen (priorities ms) × (length ms ≡ suc (length raw))
    passed false new_id old e concrete up later f h = cc
    passed true false old e concrete up later f h = cc
    passed true true true e concrete up later f h = cc
    passed true true false e false up later f h = cc
    passed true true false e true (err c) later f h = cc
    passed true true false e true (ok up) (err c) f h = cc
    passed true true false e true (ok up) (ok rest) f h =
        subst (λ l. Fresh seen (priorities l) × (length l ≡ suc (length raw))) (ok-inj _ _ h)
          ((e, (f rest refl).0), ap suc (f rest refl).1)

-- Sorting keeps the members and their number, and makes distinct priorities ascend.
length-insert_by_priority :
    (m : ChainMember) (ms : List ChainMember) → length (insert_by_priority m ms) ≡ suc (length ms)
unfolding insert_by_priority
length-insert_by_priority m [] = refl
length-insert_by_priority m (n ∷ ns) = ground (arith, length-insert_by_priority m ns)

length-sort_by_priority : (ms : List ChainMember) → length (sort_by_priority ms) ≡ length ms
unfolding sort_by_priority
length-sort_by_priority [] = refl
length-sort_by_priority (m ∷ ms) =
    length-insert_by_priority m (sort_by_priority ms) ∙ ap suc (length-sort_by_priority ms)

member-insert_by_priority :
    (k : ℕ) (m : ChainMember) (ms : List ChainMember)
    → member k (priorities (insert_by_priority m ms))
      ≡ (m.priority == k || member k (priorities ms))
unfolding insert_by_priority
member-insert_by_priority k m [] = refl
member-insert_by_priority k m (n ∷ ns) = ground (arith, member-insert_by_priority k m ns)

member-sort_by_priority :
    (k : ℕ) (ms : List ChainMember)
    → member k (priorities (sort_by_priority ms)) ≡ member k (priorities ms)
unfolding sort_by_priority
member-sort_by_priority k [] = refl
member-sort_by_priority k (m ∷ ms) =
    member-insert_by_priority k m (sort_by_priority ms)
    ∙ ap (λ b. m.priority == k || b) (member-sort_by_priority k ms)

above-insert_by_priority :
    (k : ℕ) (m : ChainMember) (ms : List ChainMember)
    → k < m.priority
    → All (λ n. k < n) (priorities ms)
    → All (λ n. k < n) (priorities (insert_by_priority m ms))
unfolding insert_by_priority
above-insert_by_priority k m [] h a = (h, tt)
above-insert_by_priority k m (n ∷ ns) h (b, bs) = elim (Bool-cases (leb m.priority n.priority)) [
  | inl first ↦ rw first (h, (b, bs))
  | inr later ↦ rw later (b, above-insert_by_priority k m ns h bs)
]

above_trans : (j k : ℕ) (ns : List ℕ) → j < k → All (λ n. k < n) ns → All (λ n. j < n) ns
above_trans j k [] h a = tt
above_trans j k (n ∷ ns) h (b, bs) = (ground arith, above_trans j k ns h bs)

insert_by_priority-Ascending :
    (m : ChainMember) (ms : List ChainMember)
    → member m.priority (priorities ms) ≡ false
    → Ascending (priorities ms)
    → Ascending (priorities (insert_by_priority m ms))
unfolding insert_by_priority
insert_by_priority-Ascending m [] new a = (tt, tt)
insert_by_priority-Ascending m (n ∷ ns) new (b, bs) =
    elim (Bool-cases (leb m.priority n.priority)) [
      | inl first ↦
          let below : m.priority < n.priority = ground (arith, new, first) in
          rw first ((below, above_trans m.priority n.priority (priorities ns) below b), (b, bs))
      | inr later ↦ rw later (
        above-insert_by_priority n.priority m ns (ground (arith, later)) b,
        insert_by_priority-Ascending m ns (ground (arith, new)) bs,
      )
    ]

seen_not_later :
    (k : ℕ) (seen ns : List ℕ) → Fresh seen ns → member k seen ≡ true → member k ns ≡ false
seen_not_later k seen [] f h = refl
seen_not_later k seen (n ∷ ns) (new, f) h = ground (arith, seen_not_later k (n ∷ seen) ns f, new, h)

sort_by_priority-Ascending :
    (seen : List ℕ) (ms : List ChainMember)
    → Fresh seen (priorities ms)
    → Ascending (priorities (sort_by_priority ms))
unfolding sort_by_priority
sort_by_priority-Ascending seen [] f = tt
sort_by_priority-Ascending seen (m ∷ ms) (new, f) =
    insert_by_priority-Ascending m (sort_by_priority ms)
      (member-sort_by_priority m.priority ms
        ∙ seen_not_later m.priority (m.priority ∷ seen) (priorities ms) f (ground arith))
      (sort_by_priority-Ascending (m.priority ∷ seen) ms f)

-- A chain that compiles has as many members as the raw chain, one to sixteen of them, and they stand
-- in strictly ascending order of priority, which is the order in which they are tried.
pub compile_chain-Ascending :
    (id : Text) (raw : List RawChainMember) (c : Chain)
    → compile_chain id raw ≡ ok c
    → Ascending (priorities c.members)
      × (length c.members ≡ length raw)
      × (0 < length c.members)
      × (length c.members ≤ 16)
unfolding compile_chain
compile_chain-Ascending id raw c h =
    passed (not (is_empty (trim id))) (not (is_empty raw)) refl (leb (length raw) 16) refl
      (compile_members raw [] []) (λ ms e. compile_members-Fresh raw [] [] ms e) h
  where
    bound :
        (ms : List ChainMember) (r : List RawChainMember)
        → length ms ≡ length r
        → not (is_empty r) ≡ true
        → leb (length r) 16 ≡ true
        → (0 < length ms) × (length ms ≤ 16)
    bound ms [] n e l = cc
    bound ms (m ∷ r) n e l = (ground (arith, n), ground (arith, n, l))

    passed :
        (named filled : Bool)
        → not (is_empty raw) ≡ filled
        → (few : Bool) → leb (length raw) 16 ≡ few
        → (run : Result CompileError (List ChainMember))
        → ((ms : List ChainMember)
            → run ≡ ok ms
            → Fresh [] (priorities ms) × (length ms ≡ length raw))
        → (do
          _ ← ensure named CompileError.chain_id_required
          _ ← ensure filled CompileError.empty_chain
          _ ← ensure few CompileError.too_many_members
          members ← run
          ok record { id = id; members = sort_by_priority members })
          ≡ ok c
        → Ascending (priorities c.members)
          × (length c.members ≡ length raw)
          × (0 < length c.members)
          × (length c.members ≤ 16)
    passed false filled e few l run f h = cc
    passed true false e few l run f h = cc
    passed true true e false l run f h = cc
    passed true true e true l (err k) f h = cc
    passed true true e true l (ok ms) f h =
        let counted = length-sort_by_priority ms ∙ (f ms refl).1 in
        subst
          (λ (d : Chain).
            Ascending (priorities d.members)
            × (length d.members ≡ length raw)
            × (0 < length d.members)
            × (length d.members ≤ 16))
          (ok-inj _ _ h)
          (
            sort_by_priority-Ascending [] ms (f ms refl).0,
            counted,
            (bound (sort_by_priority ms) raw counted e l).0,
            (bound (sort_by_priority ms) raw counted e l).1,
          )
