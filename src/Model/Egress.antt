-- ===== src/Model/Egress.antt =====
-- Upstreams, failover chains and egresses of src/model.rs, and how they are compiled. An error keeps
-- its kind and not the context that the source prints with it.
pub mod Order
use rove.Base.{ℕ}
use rove.Base.{Bool, false, not, ◌&&◌, ◌||◌, Option, none, some, List, [], ◌∷◌}
use rove.Base.{leb, if◌then◌else◌}
use rove.Base.{length}
use rove.Base.Eq.{list_beq, member, nat_eq, list_eq}
use rove.Base.Bytes.{ascii}
use rove.Base.Text.{Text, is_empty, to_ascii_lowercase, trim}
use rove.Base.Result.{Result, ok, ◌>>=◌, ensure, ok_or}
use rove.Base.Assoc.{find}
use rove.Model.Raw.{RawUpstream, RawChainMember, RawAction, RawEgress, is_none}

pub data UpstreamKind : Type 0 where
  http socks5 reverse_hop subnetra : UpstreamKind

pub record Upstream : Type 0 where
  pub kind : UpstreamKind
  pub addr : Text
  pub username : Option Text
  pub password : Option Text
  pub tls : Bool
  pub skip_cert_verify : Bool

pub record ChainMember : Type 0 where
  pub id : Text
  pub priority : ℕ
  pub upstream : Upstream

pub record Chain : Type 0 where
  pub id : Text
  pub members : List ChainMember

pub data EgressKind : Type 0 where
  via_upstream : Upstream → EgressKind
  via_chain : Chain → EgressKind

pub record Egress : Type 0 where
  pub id : Text
  pub kind : EgressKind

pub data CompileError : Type 0 where
  unsupported_schema wrong_schema too_many_users too_many_policies too_many_overrides : CompileError
  override_id_required override_without_base too_many_egresses egress_id_required : CompileError
  unsupported_kind hop_id_required stray_credentials stray_tls : CompileError
  chain_id_required empty_chain too_many_members member_id_required : CompileError
  duplicate_member_id duplicate_priority nested_chain : CompileError
  action_needs_egress unknown_egress : CompileError
  policy_id_required selector_required too_many_rules bad_selectors : CompileError
  selector_size_overflow selector_budget : CompileError
  policy_required unknown_policy bad_expire uuid_claimed : CompileError

abbrev pub is_text : Text → List ℕ → Bool
is_text = list_beq

unfoldable pub upstream_kind : Text → Option UpstreamKind
upstream_kind k =
    if is_text k (ascii "http") || is_text k (ascii "https")
    then some http
    else (if is_text k (ascii "socks5") || is_text k (ascii "socks")
        then some socks5
        else (if is_text k (ascii "reverse")
            then some reverse_hop
            else (if is_text k (ascii "subnetra") then some subnetra else none)))

-- The body after the kind is known: one block for each of the two kinds that take no credentials.
abbrev pub compile_kind : UpstreamKind → RawUpstream → Result CompileError Upstream
compile_kind reverse_hop u = do
  _ ← ensure (not (is_empty (trim u.addr))) hop_id_required
  _ ← ensure (is_none u.username && is_none u.password) stray_credentials
  _ ← ensure (not u.tls && not u.skip_cert_verify) stray_tls
  ok record {
    kind = reverse_hop;
    addr = trim u.addr;
    username = none;
    password = none;
    tls = false;
    skip_cert_verify = false;
  }
compile_kind subnetra u = do
  _ ← ensure (is_none u.username && is_none u.password) stray_credentials
  _ ← ensure (not u.tls && not u.skip_cert_verify) stray_tls
  ok record {
    kind = subnetra;
    addr = u.addr;
    username = none;
    password = none;
    tls = false;
    skip_cert_verify = false;
  }
compile_kind http u = ok record {
  kind = http;
  addr = u.addr;
  username = u.username;
  password = u.password;
  tls = u.tls;
  skip_cert_verify = u.skip_cert_verify;
}
compile_kind socks5 u = ok record {
  kind = socks5;
  addr = u.addr;
  username = u.username;
  password = u.password;
  tls = u.tls;
  skip_cert_verify = u.skip_cert_verify;
}

unfoldable pub compile_upstream : RawUpstream → Result CompileError Upstream
unfolding upstream_kind trim to_ascii_lowercase
compile_upstream u = do
  kind ← ok_or (upstream_kind (to_ascii_lowercase u.kind)) unsupported_kind
  compile_kind kind u

abbrev pub names_chain : RawUpstream → Bool
unfolding to_ascii_lowercase
names_chain u = list_beq (to_ascii_lowercase u.kind) (ascii "chain")

-- The loop of `compile_chain`, with the ids and the priorities met so far.
unfoldable pub compile_members :
    List RawChainMember → List Text → List ℕ → Result CompileError (List ChainMember)
unfolding compile_upstream trim to_ascii_lowercase
compile_members [] ids priorities = ok []
compile_members (m ∷ ms) ids priorities =
    let rest = compile_members ms (trim m.id ∷ ids) (m.priority ∷ priorities) in
    do
      _ ← ensure (not (is_empty (trim m.id))) member_id_required
      _ ← ensure (not (member (trim m.id) ids)) duplicate_member_id
      _ ← ensure (not (member m.priority priorities)) duplicate_priority
      _ ← ensure (not (names_chain m.backend)) nested_chain
      up ← compile_upstream m.backend
      members ← rest
      ok (record { id = trim m.id; priority = m.priority; upstream = up } ∷ members)

-- `sort_by_key(|m| m.priority)`, which is stable.
unfoldable pub insert_by_priority : ChainMember → List ChainMember → List ChainMember
insert_by_priority m [] = m ∷ []
insert_by_priority m (n ∷ ns) =
    let rest = insert_by_priority m ns in if leb m.priority n.priority then m ∷ n ∷ ns else n ∷ rest

unfoldable pub sort_by_priority : List ChainMember → List ChainMember
unfolding insert_by_priority
sort_by_priority [] = []
sort_by_priority (m ∷ ms) = insert_by_priority m (sort_by_priority ms)

abbrev pub max_chain_members : ℕ
max_chain_members = 16

unfoldable pub compile_chain : Text → List RawChainMember → Result CompileError Chain
unfolding compile_members sort_by_priority trim
compile_chain id raw_members = do
  _ ← ensure (not (is_empty (trim id))) chain_id_required
  _ ← ensure (not (is_empty raw_members)) empty_chain
  _ ← ensure (leb (length raw_members) max_chain_members) too_many_members
  members ← compile_members raw_members [] []
  ok record { id = id; members = sort_by_priority members }

unfoldable pub compile_egress : Text → RawEgress → Result CompileError Egress
unfolding compile_upstream compile_chain to_ascii_lowercase
compile_egress id (RawEgress.upstream backend) = do
  _ ← ensure (not (names_chain backend)) nested_chain
  up ← compile_upstream backend
  ok record { id = id; kind = via_upstream up }
compile_egress id (RawEgress.chain members) = do
  ch ← compile_chain id members
  ok record { id = id; kind = via_chain ch }

pub data RouteAction : Type 0 where
  to_egress : Egress → RouteAction
  go_direct : RouteAction
  go_block : RouteAction

unfoldable pub compile_action : RawAction → List (Text × Egress) → Result CompileError RouteAction
unfolding trim find
compile_action (RawAction.egress id) egresses = do
  _ ← ensure (not (is_empty (trim id))) action_needs_egress
  e ← ok_or (find egresses (trim id)) unknown_egress
  ok (to_egress e)
compile_action RawAction.direct egresses = ok go_direct
compile_action RawAction.block egresses = ok go_block
