-- ===== src/Policy/Ip.antt =====
-- The address matcher, src/policy/ip.rs. Parsing of addresses is std's and of networks the ipnet
-- crate's, as is containment in a network: they are parameters.
use rove.Base.{ℕ}
use rove.Base.{Bool, true, false, ◌&&◌, ◌||◌, Option, none, some, List, [], ◌∷◌, ◌++◌}
use rove.Base.{◌==◌, if◌then◌else◌}
use rove.Base.{any}
use rove.Base.Eq.{member, nat_eq, list_eq}
use rove.Base.Text.{Text, is_empty, trim}
use rove.Net.{IpAddr, ipv4, ipv6, ip_eq}

-- `IpNet`, with the address and the prefix length that it was parsed with.
pub record IpNet : Type 0 where
  pub addr : IpAddr
  pub prefix_len : ℕ

pub record IpMatcher : Type 0 where
  pub exact : List IpAddr
  pub cidrs : List IpNet

unfoldable pub empty_ips : IpMatcher
empty_ips = record { exact = []; cidrs = [] }

unfoldable pub is_host_route : IpNet → Bool
is_host_route net = elim (net.addr) [
  | ipv4 a ↦ net.prefix_len == 32
  | ipv6 o ↦ net.prefix_len == 128
]

unfoldable pub insert_exact : IpMatcher → IpAddr → IpMatcher
insert_exact m addr = if member addr m.exact then m else record m { exact = m.exact ++ addr ∷ [] }

unfoldable pub insert_net : IpMatcher → IpNet → IpMatcher
unfolding insert_exact is_host_route
insert_net m net =
    if is_host_route net then insert_exact m net.addr else record m { cidrs = m.cidrs ++ net ∷ [] }

-- What the two parsers and `IpNet::contains` return.
pub record IpText : Type 0 where
  pub parse_ip : Text → Option IpAddr
  pub parse_net : Text → Option IpNet
  pub net_contains : IpNet → IpAddr → Bool

module _ (x : IpText) where
  -- The new matcher, and whether the entry is an address or a network.
  unfoldable pub add_ip : IpMatcher → Text → IpMatcher × Bool
  unfolding insert_net insert_exact
  add_ip m entry = elim (x.parse_net (trim entry)) [
    | some net ↦ (insert_net m net, true)
    | none ↦ elim (x.parse_ip (trim entry)) [
      | some addr ↦ (insert_exact m addr, true)
      | none ↦ (m, false)
    ]
  ]

  unfoldable pub matches_ip : IpMatcher → IpAddr → Bool
  matches_ip m addr = member addr m.exact || any (λ n. x.net_contains n addr) m.cidrs

unfoldable pub has_no_ips : IpMatcher → Bool
has_no_ips m = is_empty m.exact && is_empty m.cidrs
