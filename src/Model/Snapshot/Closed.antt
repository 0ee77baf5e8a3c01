-- ===== src/Model/Snapshot/Closed.antt =====
-- The snapshots that `compile_checked` of src/model.rs makes.
use rove.Base.{ℕ}
use rove.Base.{◌≡◌, refl, ap, ◌∙◌, Bool, true, false, not, Option, some, List, [], ◌∷◌, arith}
use rove.Base.{leb, ◌==◌, if◌then◌else◌}
use rove.Base.{length, All}
use rove.Base.Eq.{list_beq, nat_eq, list_eq}
use rove.Base.Text.{Text, is_empty, trim}
use rove.Base.Result.{Result, ok, err, ◌>>=◌, ensure}
use rove.Base.Assoc.{find, has_key}
use rove.Model.Snapshot.Served.{AreServed, compile_policies-AreServed}
use rove.Policy.Ip.{IpText}
use rove.Policy.Rules.{Books}
use rove.Model.Raw.{
  RawEgress, RawUser, RawSnapshot, schema_version_supported, schema_version_current,
  max_supported_schema_version,
}
use rove.Model.Egress.{Egress, CompileError}
use rove.Model.Policy.{RoutingPolicy}
use rove.Model.Snapshot.{Snapshot, User, FrontendIndex}
use rove.Base.Result.{Holds}
use rove.Model.Raw.{RawUser, RawSnapshot}
use rove.Model.Snapshot.{
  max_users, max_policies, max_node_overrides, max_egresses, override_for, compile_egresses,
  compile_expire, compile_frontends, FrontendCred, compile_user, compile_users, compile_checked,
  compile_policies,
}

module _ {Date : Type 0} (parse_date : Text → Option Date) {P : Type 0}
    (policies : List (Text × P)) where
  -- Each user's policy is among the policies.
  abbrev pub AreBound : List (Text × User Date) → Type 0
  AreBound = All (λ (e : Text × User Date). has_key policies e.1.policy ≡ true)

  compile_user-policy :
      (name : Text) (u : RawUser) (index : FrontendIndex)
      → Holds
          (λ (r : User Date × FrontendIndex). r.0.policy ≡ u.policy)
          (compile_user parse_date name u index)
  unfolding compile_user
  compile_user-policy name u index =
      made (compile_expire parse_date u.expire) (compile_frontends name u.frontends index)
    where
      made :
          (expire' : Result CompileError (Option Date))
          (frontends' : Result CompileError (List (Text × FrontendCred) × FrontendIndex))
          → Holds
              (λ (r : User Date × FrontendIndex). r.0.policy ≡ u.policy)
              (do
                expire ← expire'
                frontends ← frontends'
                ok (
                  record {
                    password = u.password;
                    expire = expire;
                    up_rate = u.up_rate;
                    down_rate = u.down_rate;
                    max_connections = u.max_connections;
                    policy = u.policy;
                    frontends = frontends.0;
                  },
                  frontends.1,
                ))
      made (err e) f = tt
      made (ok d) (err e) = tt
      made (ok d) (ok f) = refl

  compile_users-AreBound :
      (us : List (Text × RawUser)) (index : FrontendIndex)
      → Holds
          (λ (r : List (Text × User Date) × FrontendIndex). AreBound r.0)
          (compile_users parse_date policies us index)
  unfolding compile_users
  compile_users-AreBound [] index = tt
  compile_users-AreBound ((name, u) ∷ us) index =
      passed (not (is_empty (trim u.policy))) (has_key policies u.policy) refl
        (compile_user parse_date name u index) (compile_user-policy name u index)
        (λ i. compile_users parse_date policies us i) (λ i. compile_users-AreBound us i)
    where
      passed :
          (named known : Bool)
          → has_key policies u.policy ≡ known
          → (made : Result CompileError (User Date × FrontendIndex))
          → Holds (λ (r : User Date × FrontendIndex). r.0.policy ≡ u.policy) made
          → (later : FrontendIndex → Result CompileError (List (Text × User Date) × FrontendIndex))
          → ((i : FrontendIndex)
              → Holds (λ (r : List (Text × User Date) × FrontendIndex). AreBound r.0) (later i))
          → Holds
              (λ (r : List (Text × User Date) × FrontendIndex). AreBound r.0)
              (do
                _ ← ensure named CompileError.policy_required
                _ ← ensure known CompileError.unknown_policy
                user ← made
                rest ← later user.1
                ok ((name, user.0) ∷ rest.0, rest.1))
      passed false known k made m later l = tt
      passed true false k made m later l = tt
      passed true true k (err e) m later l = tt
      passed true true k (ok (v, i)) m later l = rest_bound (later i) (l i)
        where
          rest_bound :
              (r : Result CompileError (List (Text × User Date) × FrontendIndex))
              → Holds (λ (r : List (Text × User Date) × FrontendIndex). AreBound r.0) r
              → Holds
                  (λ (r : List (Text × User Date) × FrontendIndex). AreBound r.0)
                  (do rest ← r; ok ((name, v) ∷ rest.0, rest.1))
          rest_bound (err e) h = tt
          rest_bound (ok (vs, j)) h = (ap (has_key policies) m ∙ k, h)

find-AreBound :
    {Date P : Type 0} (parse_date : Text → Option Date) (policies : List (Text × P))
    (us : List (Text × User Date))
    → AreBound parse_date policies us
    → (name : Text) (u : User Date) → find us name ≡ some u
    → has_key policies u.policy ≡ true
unfolding find
find-AreBound parse_date policies [] b name u h = cc
find-AreBound parse_date policies ((k, v) ∷ us) (b, bs) name u h =
    by_key (list_beq k name) (find-AreBound parse_date policies us bs name u) h
  where
    by_key :
        (t : Bool)
        → (find us name ≡ some u → has_key policies u.policy ≡ true)
        → (if t then some v else find us name) ≡ some u
        → has_key policies u.policy ≡ true
    by_key true later e = ground (arith, e, b)
    by_key false later e = later e

module _ {Book Selector Date : Type 0} where
  -- Each user of the snapshot is bound to one of its policies.
  abbrev pub IsClosed : Snapshot Book Selector Date → Type 0
  IsClosed s =
      (name : Text) (u : User Date)
      → find s.users name ≡ some u
      → has_key s.policies u.policy ≡ true

  -- Moreover each policy answers with the first of its routes that matches.
  abbrev pub IsConsistent :
      (Selector → ℕ × ℕ)
      → IpText
      → Books Book Selector
      → Option Book
      → Snapshot Book Selector Date
      → Type 0
  IsConsistent allocation x bk book s = IsClosed s × AreServed allocation x bk book s.policies

  -- A snapshot that compiles is consistent: the policy that a user names is in the snapshot, and for
  -- every policy and host, the index finds what a search through the routes in order finds.
  pub compile_checked-IsConsistent :
      (allocation : Selector → ℕ × ℕ) (parse_date : Text → Option Date) (x : IpText)
      (bk : Books Book Selector) (raw : RawSnapshot) (node_id : Text) (book : Option Book)
      → Holds
          (IsConsistent allocation x bk book)
          (compile_checked allocation parse_date x bk raw node_id book)
  unfolding compile_checked
  compile_checked-IsConsistent allocation parse_date x bk raw node_id book =
      passed (schema_version_supported raw.schema_version max_supported_schema_version)
        (raw.schema_version == schema_version_current) (leb (length raw.users) max_users)
        (leb (length raw.routing_policies) max_policies)
        (leb (length raw.node_overrides) max_node_overrides)
        (override_for raw.node_overrides node_id raw.egresses)
    where
      compiled :
          (policies' : Result CompileError (List (Text × RoutingPolicy Book Selector)))
          → Holds (AreServed allocation x bk book) policies'
          → Holds (IsConsistent allocation x bk book) (do
            policies ← policies'
            users ← compile_users parse_date policies raw.users []
            ok record {
              version = raw.version;
              schema_version = raw.schema_version;
              users = users.0;
              policies = policies;
              frontend_index = users.1;
            })
      compiled (err e) served = tt
      compiled (ok ps) served =
          bound (compile_users parse_date ps raw.users [])
            (compile_users-AreBound parse_date ps raw.users [])
        where
          bound :
              (r : Result CompileError (List (Text × User Date) × FrontendIndex))
              → Holds
                  (λ (r : List (Text × User Date) × FrontendIndex). AreBound parse_date ps r.0)
                  r
              → Holds (IsConsistent allocation x bk book) (do
                users ← r
                ok record {
                  version = raw.version;
                  schema_version = raw.schema_version;
                  users = users.0;
                  policies = ps;
                  frontend_index = users.1;
                })
          bound (err e) h = tt
          bound (ok (us, i)) h = (find-AreBound parse_date ps us h, served)

      resolved :
          (few : Bool) (egresses' : Result CompileError (List (Text × Egress)))
          → Holds (IsConsistent allocation x bk book) (do
            _ ← ensure few CompileError.too_many_egresses
            egresses ← egresses'
            policies ←
                compile_policies allocation x bk book egresses raw.routing_policies
                  record { rules = 0; allocations = []; bytes = 0 }
            users ← compile_users parse_date policies raw.users []
            ok record {
              version = raw.version;
              schema_version = raw.schema_version;
              users = users.0;
              policies = policies;
              frontend_index = users.1;
            })
      resolved false es = tt
      resolved true (err e) = tt
      resolved true (ok es) =
          compiled
            (compile_policies allocation x bk book es raw.routing_policies
              record { rules = 0; allocations = []; bytes = 0 })
            (compile_policies-AreServed allocation x bk book es raw.routing_policies
              record { rules = 0; allocations = []; bytes = 0 } (omega arith))

      passed :
          (supported current few_users few_policies few_overrides : Bool)
          (overridden : Result CompileError (List (Text × RawEgress)))
          → Holds (IsConsistent allocation x bk book) (do
            _ ← ensure supported CompileError.unsupported_schema
            _ ← ensure current CompileError.wrong_schema
            _ ← ensure few_users CompileError.too_many_users
            _ ← ensure few_policies CompileError.too_many_policies
            _ ← ensure few_overrides CompileError.too_many_overrides
            raw_egresses ← overridden
            _ ← ensure (leb (length raw_egresses) max_egresses) CompileError.too_many_egresses
            egresses ← compile_egresses raw_egresses
            policies ←
                compile_policies allocation x bk book egresses raw.routing_policies
                  record { rules = 0; allocations = []; bytes = 0 }
            users ← compile_users parse_date policies raw.users []
            ok record {
              version = raw.version;
              schema_version = raw.schema_version;
              users = users.0;
              policies = policies;
              frontend_index = users.1;
            })
      passed false c u p o r = tt
      passed true false u p o r = tt
      passed true true false p o r = tt
      passed true true true false o r = tt
      passed true true true true false r = tt
      passed true true true true true (err e) = tt
      passed true true true true true (ok es) =
          resolved (leb (length es) max_egresses) (compile_egresses es)
