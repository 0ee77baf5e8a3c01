-- ===== src/Subnetra/Peer/Indexed.antt =====
-- The table of an accepted configuration finds each peer by its id.
use rove.Base.{ℕ, zero, suc, ◌+◌}
use rove.Base.{◌≡◌, refl, ap, ◌∙◌, ◌≢◌, true, false, none, some, List, [], ◌∷◌, map, arith}
use rove.Base.{◌==◌, if◌then◌else◌}
use rove.Base.{get_elem?, All}
use rove.Base.Result.{ok}
use mathlib.Core.Path.{subst}
use rove.Base.{IsDistinct}
use rove.Subnetra.Crypto.{Primitives}
use rove.Subnetra.Config.{RuntimePeer, RuntimeConfig, SubnetraConfig, NetText, to_runtime}
use rove.Subnetra.Config.Lowered.{ids}
use rove.Subnetra.Config.Runtime.{to_runtime-IsRuntime}
use rove.Subnetra.Peer.{new_peer, new_table, lookup_id, insert_id, index_ids}

lookup_id-insert_id :
    (m : List (ℕ × ℕ)) (k i other : ℕ)
    → lookup_id other (insert_id k i m) ≡ (if k == other then some i else lookup_id other m)
unfolding lookup_id insert_id
lookup_id-insert_id [] k i other = refl
lookup_id-insert_id ((j, v) ∷ m) k i other = ground (arith, lookup_id-insert_id m k i other)

module _ (c : Primitives) where
  index_ids-other :
      (ps : List RuntimePeer) (j k : ℕ) (m : List (ℕ × ℕ))
      → All (λ id. k ≢ id) (ids ps)
      → lookup_id k (index_ids c j ps m) ≡ lookup_id k m
  unfolding index_ids
  index_ids-other [] j k m h = refl
  index_ids-other (p ∷ ps) j k m (h, hs) =
      let differ : (p.id == k) ≡ false = ground arith in
      index_ids-other ps (j + 1) k (insert_id p.id j m) hs
      ∙ lookup_id-insert_id m p.id j k
      ∙ rw differ refl

  index_ids-get :
      (ps : List RuntimePeer) (j n : ℕ) (p : RuntimePeer) (m : List (ℕ × ℕ))
      → IsDistinct (ids ps)
      → get_elem? ps n ≡ some p
      → lookup_id p.id (index_ids c j ps m) ≡ some (j + n)
  unfolding index_ids
  index_ids-get [] j n p m d h = cc
  index_ids-get (q ∷ ps) j zero p m (new, d) h =
      let same : q ≡ p = cc in
      let here : (q.id == q.id) ≡ true = ground arith in
      subst (λ r. lookup_id r.id (index_ids c (j + 1) ps (insert_id q.id j m)) ≡ some (j + 0)) same
        (index_ids-other ps (j + 1) q.id (insert_id q.id j m) new
          ∙ lookup_id-insert_id m q.id j q.id
          ∙ rw here (ap some (omega arith)))
  index_ids-get (q ∷ ps) j (suc n) p m (new, d) h =
      index_ids-get ps (j + 1) n p (insert_id q.id j m) d h ∙ ap some (omega arith)

  get_elem?-map :
      {A B : Type 0} (f : A → B) (xs : List A) (n : ℕ) (a : A)
      → get_elem? xs n ≡ some a
      → get_elem? (map f xs) n ≡ some (f a)
  get_elem?-map f [] n a h = cc
  get_elem?-map f (x ∷ xs) zero a h = let same : x ≡ a = cc in ap (λ y. some (f y)) same
  get_elem?-map f (x ∷ xs) (suc n) a h = get_elem?-map f xs n a h

  -- In the table that is built from a configuration that was accepted, the id of each configured
  -- peer leads to that peer's entry, made with its own keys; an id of no configured peer leads
  -- nowhere.
  pub new_table-to_runtime :
      (net : NetText) (file : SubnetraConfig) (cfg : RuntimeConfig) (epoch : ℕ)
      → to_runtime net file ≡ ok cfg
      → ((n : ℕ) (p : RuntimePeer)
          → get_elem? cfg.peers n ≡ some p
          → (lookup_id p.id (new_table c cfg epoch).by_id ≡ some n)
            × (get_elem? (new_table c cfg epoch).peers n ≡ some (new_peer c cfg epoch p)))
        × ((id : ℕ)
            → All (λ k. id ≢ k) (ids cfg.peers)
            → lookup_id id (new_table c cfg epoch).by_id ≡ none)
  unfolding new_table
  new_table-to_runtime net file cfg epoch h =
      let valid = to_runtime-IsRuntime net file cfg h in
      (
        λ n p at. (
          index_ids-get cfg.peers 0 n p [] valid.peers.distinct at ∙ ap some (omega arith),
          get_elem?-map (new_peer c cfg epoch) cfg.peers n p at,
        ),
        λ id absent. index_ids-other cfg.peers 0 id [] absent ∙ unfold lookup_id in refl,
      )
