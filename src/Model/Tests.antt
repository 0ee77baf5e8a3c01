-- ===== src/Model/Tests.antt =====
-- Concrete snapshots and connections.
use rove.Base.{ℕ, ◌^◌, ◌≤◌, ◌<◌}
use rove.Base.{
  ◌≡◌, refl, ◌∙◌, ◌≢◌, ◌⊎◌, ◌↔◌, Bool, false, ◌&&◌, Option, none, some, List, [], ◌∷◌, arith,
}
use rove.Base.{leb, if◌then◌else◌}
use rove.Base.{length}
use rove.Base.Eq.{nat_eq, list_eq}
use rove.Base.Bytes.{ascii}
use rove.Base.Text.{
  Text, to_ascii_lowercase, trim, trim_matches, strip_prefix, contains_text, split_on,
}
use rove.Model.Raw.{schema_version_supported}
use rove.Model.Snapshot.{
  override_for, compile_egresses, compile_policies, compile_users, compile_routes, count_selectors,
  account_book_selector, compile_user, compile_frontends,
}
use rove.Model.Egress.{compile_action}
use rove.Policy.Rules.{from_rules, sort_rules, attach_book, add_entry}
use rove.Base.{true}
use rove.Base.Result.{Result, err, ok}
use rove.Base.Assoc.{find}
use rove.Policy.Ip.{IpText, empty_ips}
use rove.Base.Text.{
  trim_end_matches, strip_byte, strip_while, strip_space, strip_space_back, lower_byte, starts_with,
}
use rove.Policy.Trie.{update_at, update_child, get_child}
use rove.Policy.Ip.{matches_ip}
use rove.Policy.RouteIndex.Names.{no_suffixes-IsBuilt, add_suffix-IsBuilt}
use rove.Policy.Domain.{
  DomainMatcher, add_suffix, insert_suffix, no_suffixes, matches_domain, matches_normalized,
  matches_suffix, walk, labels, normalize,
}
use rove.Policy.Rules.{Books, matches}
use rove.Model.Raw.{RawUpstream, RawChainMember, RawAction, RawEgress, RawSnapshot}
use rove.Model.Egress.{RouteAction, socks5, Upstream, Chain, go_direct, go_block}
use rove.Model.Policy.{Route, RoutingPolicy, from_routes, first_route, first_naive}
use rove.Model.Snapshot.{Snapshot, User}
use rove.Net.{ipv4}
use rove.Model.Raw.{schema_version_supported}
use rove.Model.Snapshot.{
  override_for, compile_egresses, compile_policies, compile_users, compile_routes, count_selectors,
  account_book_selector, compile_user, compile_frontends,
}
use rove.Model.Egress.{compile_action}
use rove.Policy.Rules.{from_rules, sort_rules, attach_book, add_entry}
use rove.Base.Result.{Result, err, Holds}
use rove.Model.View.{user_policy}
use rove.Model.View.Redact.{redact, user_policy-redact}
use rove.Model.Decide.{decide_with_sniff, block}
use rove.Model.Decide.Veto.{
  requested_block_vetoes, sniffed_block_vetoes, sniffed_ignored_for_domain,
  sniffed_selects_for_address,
}
use rove.Model.Egress.{
  compile_chain, compile_members, compile_upstream, upstream_kind, sort_by_priority,
  insert_by_priority,
}
use rove.Model.Egress.Order.{compile_chain-Ascending, priorities, Ascending}
use rove.Model.Raw.{
  RawAction, RawActionWire, RawEgress, RawEgressWire, action_of_wire, wire_of_action,
  egress_of_wire, wire_of_egress,
}
use rove.Model.Raw.Strict.{action_of_wire_iff, egress_of_wire_iff}
use rove.Model.Policy.FirstMatch.{RoutesAreBuilt, first_route-first_naive}
use rove.Model.Snapshot.{compile_checked}
use rove.Model.Snapshot.Closed.{IsConsistent, compile_checked-IsConsistent}

abbrev starts_with_digit : Text → Bool
starts_with_digit [] = false
starts_with_digit (c ∷ s) = leb b'0' c && leb c b'9'

-- A text that starts with a digit is an address; there are no networks.
abbrev ip_text : IpText
ip_text = record {
  parse_ip = λ s. if starts_with_digit s then some (ipv4 1) else none;
  parse_net = λ s. none;
  net_contains = λ n a. false;
}

-- An address book that knows no category.
abbrev books : Books (Unit {0}) (Unit {0})
books = record { resolve = λ b ps. none; book_matches = λ b host s. false }

-- The suffix bad.example, and the keyword good.
bad_domains : DomainMatcher
bad_domains = record {
  full = [];
  domain = add_suffix no_suffixes (ascii "bad.example");
  keyword = [];
}

abbrev good_domains : DomainMatcher
good_domains = record { full = []; domain = no_suffixes; keyword = ascii "good" ∷ [] }

abbrev routes : List (Route (Unit {0}) (Unit {0}))
routes =
    record {
      selectors = record { domains = bad_domains; ips = empty_ips; book = none };
      selector_rules = [];
      action = go_block;
    }
    ∷ record {
      selectors = record { domains = good_domains; ips = empty_ips; book = none };
      selector_rules = [];
      action = go_direct;
    }
    ∷ []

routes_built : RoutesAreBuilt ip_text books routes
unfolding bad_domains
routes_built = (
  add_suffix-IsBuilt no_suffixes (ascii "bad.example") no_suffixes-IsBuilt,
  (no_suffixes-IsBuilt, tt),
)

few_routes : length routes < 2 ^ 32
few_routes = omega arith

bad_blocked : first_naive ip_text books routes 0 (ascii "a.bad.example") ≡ some (0, go_block)
unfolding first_naive matches matches_domain matches_normalized matches_suffix walk labels split_on
    bad_domains add_suffix insert_suffix normalize to_ascii_lowercase trim_matches trim
    trim_end_matches strip_byte strip_while strip_space strip_space_back lower_byte update_at
    update_child get_child strip_prefix
bad_blocked = refl

good_direct : first_naive ip_text books routes 0 (ascii "good.example") ≡ some (1, go_direct)
unfolding first_naive matches matches_domain matches_normalized matches_suffix walk labels split_on
    bad_domains add_suffix insert_suffix normalize to_ascii_lowercase trim_matches trim
    trim_end_matches strip_byte strip_while strip_space strip_space_back lower_byte update_at
    update_child get_child contains_text starts_with strip_prefix
good_direct = refl

address_unmatched : first_naive ip_text books routes 0 (ascii "1.1.1.1") ≡ none
unfolding first_naive matches matches_ip empty_ips
address_unmatched = refl

first_route-first_naive_example :
    first_route ip_text books (from_routes routes go_direct) (ascii "a.bad.example")
    ≡ first_naive ip_text books routes 0 (ascii "a.bad.example")
first_route-first_naive_example =
    first_route-first_naive ip_text books routes go_direct (ascii "a.bad.example") routes_built
      few_routes

policy : RoutingPolicy (Unit {0}) (Unit {0})
policy = from_routes routes go_direct

bad_route : first_route ip_text books policy (ascii "a.bad.example") ≡ some (0, go_block)
unfolding policy
bad_route =
    first_route-first_naive ip_text books routes go_direct (ascii "a.bad.example") routes_built
      few_routes
    ∙ bad_blocked

good_route : first_route ip_text books policy (ascii "good.example") ≡ some (1, go_direct)
unfolding policy
good_route =
    first_route-first_naive ip_text books routes go_direct (ascii "good.example") routes_built
      few_routes
    ∙ good_direct

address_route : first_route ip_text books policy (ascii "1.1.1.1") ≡ none
unfolding policy
address_route =
    first_route-first_naive ip_text books routes go_direct (ascii "1.1.1.1") routes_built few_routes
    ∙ address_unmatched

abbrev alice : User (Unit {0})
alice = record {
  password = [];
  expire = none;
  up_rate = 0;
  down_rate = 0;
  max_connections = 0;
  policy = ascii "p";
  frontends = [];
}

snapshot : Snapshot (Unit {0}) (Unit {0}) (Unit {0})
snapshot = record {
  version = 3;
  schema_version = 1;
  users = (ascii "alice", alice) ∷ [];
  policies = (ascii "p", policy) ∷ [];
  frontend_index = [];
}

alice_found : find snapshot.users (ascii "alice") ≡ some alice
unfolding snapshot find
alice_found = refl

policy_found : find snapshot.policies alice.policy ≡ some policy
unfolding snapshot find
policy_found = refl

bob_missing : find snapshot.users (ascii "bob") ≡ none
unfolding snapshot find
bob_missing = refl

good_not_blocked :
    (i : ℕ) → first_route ip_text books policy (ascii "good.example") ≢ some (i, go_block)
good_not_blocked i h = let found = good_route in cc

address_not_blocked :
    (i : ℕ) → first_route ip_text books policy (ascii "1.1.1.1") ≢ some (i, go_block)
address_not_blocked i h = let found = address_route in cc

requested_block_vetoes_example :
    (decide_with_sniff ip_text books snapshot
        (ascii "alice")
        (ascii "a.bad.example")
        (some (ascii "good.example"))
      ≡ decide_with_sniff ip_text books snapshot (ascii "alice") (ascii "a.bad.example") none)
    × ((decide_with_sniff ip_text books snapshot
          (ascii "alice")
          (ascii "a.bad.example")
          (some (ascii "good.example"))).decision
        ≡ block)
requested_block_vetoes_example =
    requested_block_vetoes ip_text books snapshot (ascii "alice") (ascii "a.bad.example") alice
      policy alice_found policy_found (some (ascii "good.example")) none 0 bad_route

sniffed_block_vetoes_example :
    (decide_with_sniff ip_text books snapshot
      (ascii "alice")
      (ascii "good.example")
      (some (ascii "a.bad.example"))).decision
    ≡ block
sniffed_block_vetoes_example =
    sniffed_block_vetoes ip_text books snapshot (ascii "alice") (ascii "good.example") alice policy
      alice_found policy_found (ascii "a.bad.example") 0 bad_route

sniffed_ignored_for_domain_example :
    decide_with_sniff ip_text books snapshot
      (ascii "alice")
      (ascii "x.example")
      (some (ascii "good.example"))
    ≡ decide_with_sniff ip_text books snapshot (ascii "alice") (ascii "x.example") none
sniffed_ignored_for_domain_example =
    sniffed_ignored_for_domain ip_text books snapshot (ascii "alice") (ascii "x.example") alice
      policy alice_found policy_found (ascii "good.example") refl good_not_blocked

sniffed_selects_for_address_example :
    ((idx : ℕ) × (a : RouteAction) × (first_route ip_text books policy (ascii "good.example")
        ≡ some (idx, a))
      × (decide_with_sniff ip_text books snapshot
            (ascii "alice")
            (ascii "1.1.1.1")
            (some (ascii "good.example"))
          ≡ decide_with_sniff ip_text books snapshot (ascii "alice") (ascii "good.example") none))
    ⊎ (first_route ip_text books policy (ascii "good.example") ≡ none)
      × (decide_with_sniff ip_text books snapshot
            (ascii "alice")
            (ascii "1.1.1.1")
            (some (ascii "good.example"))
          ≡ decide_with_sniff ip_text books snapshot (ascii "alice") (ascii "1.1.1.1") none)
sniffed_selects_for_address_example =
    sniffed_selects_for_address ip_text books snapshot (ascii "alice") (ascii "1.1.1.1") alice
      policy alice_found policy_found (ascii "good.example") refl address_not_blocked

abbrev backend : RawUpstream
backend = record {
  kind = ascii "SOCKS5";
  addr = ascii "a:1";
  username = none;
  password = none;
  tls = false;
  skip_cert_verify = false;
}

abbrev raw_members : List RawChainMember
raw_members =
    record { id = ascii "b"; priority = 9; backend = backend }
    ∷ record { id = ascii "a"; priority = 4; backend = backend }
    ∷ []

abbrev ordered : Chain
ordered =
    let up : Upstream = record {
      kind = socks5;
      addr = ascii "a:1";
      username = none;
      password = none;
      tls = false;
      skip_cert_verify = false;
    } in
    record {
      id = ascii "c";
      members =
          record { id = ascii "a"; priority = 4; upstream = up }
          ∷ record { id = ascii "b"; priority = 9; upstream = up }
          ∷ [];
    }

chain_compiles : compile_chain (ascii "c") raw_members ≡ ok ordered
unfolding compile_chain compile_members compile_upstream upstream_kind sort_by_priority
    insert_by_priority to_ascii_lowercase lower_byte trim strip_while strip_space strip_space_back
chain_compiles = refl

compile_chain-Ascending_example :
    Ascending (priorities ordered.members)
    × (length ordered.members ≡ length raw_members)
    × (0 < length ordered.members)
    × (length ordered.members ≤ 16)
compile_chain-Ascending_example =
    compile_chain-Ascending (ascii "c") raw_members ordered chain_compiles

abbrev wire : RawActionWire
wire = record { kind = ascii "direct"; egress_id = some (ascii "e") }

action_of_wire_iff_example :
    (action_of_wire wire ≡ ok RawAction.direct) ↔ (wire ≡ wire_of_action RawAction.direct)
action_of_wire_iff_example = action_of_wire_iff wire RawAction.direct

abbrev egress_wire : RawEgressWire
egress_wire = record { kind = ascii "upstream"; backend = some backend; members = none }

egress_of_wire_iff_example :
    (egress_of_wire egress_wire ≡ ok (RawEgress.upstream backend))
    ↔ (egress_wire ≡ wire_of_egress (RawEgress.upstream backend))
egress_of_wire_iff_example = egress_of_wire_iff egress_wire (RawEgress.upstream backend)

abbrev no_allocation : Unit {0} → ℕ × ℕ
no_allocation s = (0, 0)

abbrev no_date : Text → Option (Unit {0})
no_date s = none

abbrev raw_snapshot : RawSnapshot
raw_snapshot = record {
  schema_version = 1;
  version = 3;
  users =
      (
        ascii "alice",
        record {
          password = [];
          expire = none;
          up_rate = 0;
          down_rate = 0;
          max_connections = 0;
          policy = ascii "p";
          frontends = [];
        },
      )
      ∷ [];
  routing_policies =
      (
        ascii "p",
        record {
          routes = record { selectors = ascii "bad.example" ∷ []; action = RawAction.block } ∷ [];
          default_action = none;
        },
      )
      ∷ [];
  egresses = [];
  node_overrides = [];
}

compile_checked-IsConsistent_example :
    Holds
      (IsConsistent no_allocation ip_text books none)
      (compile_checked no_allocation no_date ip_text books raw_snapshot (ascii "n") none)
compile_checked-IsConsistent_example =
    compile_checked-IsConsistent no_allocation no_date ip_text books raw_snapshot (ascii "n") none

abbrev no_format : Unit {0} → Text
no_format d = []

user_policy-redact_example :
    user_policy no_format (redact snapshot) (ascii "alice")
    ≡ user_policy no_format snapshot (ascii "alice")
user_policy-redact_example = user_policy-redact no_format snapshot (ascii "alice")

abbrev succeeds : {E A : Type 0} → Result E A → Bool
succeeds (ok a) = true
succeeds (err e) = false

-- The snapshot of the example does compile.
raw_snapshot_compiles :
    succeeds (compile_checked no_allocation no_date ip_text books raw_snapshot (ascii "n") none)
    ≡ true
unfolding compile_checked schema_version_supported override_for find compile_egresses
    compile_policies compile_users compile_routes count_selectors account_book_selector
    compile_action compile_user compile_frontends from_rules sort_rules attach_book add_entry trim
    strip_while strip_space strip_space_back strip_prefix
raw_snapshot_compiles = refl
