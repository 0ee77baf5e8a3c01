-- ===== src/Subnetra/Tests/Accepted.antt =====
-- A configuration that is accepted, and its table.
use rove.Base.{ℕ}
use rove.Base.{◌≡◌, refl, ◌≢◌, true, none, some, List, [], ◌∷◌, ◌++◌, arith}
use rove.Base.{replicate, get_elem?, All}
use rove.Base.Bytes.{ascii, IsByte}
use rove.Base.Eq.{nat_eq, list_eq}
use rove.Base.Bytes.{ascii}
use rove.Base.Text.{to_ascii_lowercase, trim}
use rove.Base.Result.{ok, err}
use rove.Net.{ipv4}
use rove.Subnetra.Config.{
  hub, spoke, Mode, netstack, Device, RuntimePeer, RuntimeConfig, SubnetraConfig, PeerConfig,
  NetText, to_runtime, parse_psk, zero_local_id, panicked,
}
use rove.Subnetra.Config.Lowered.{ids}
use rove.Subnetra.Config.Runtime.{IsRuntime, to_runtime-IsRuntime}
use rove.Subnetra.Peer.{new_table, new_peer, lookup_id}
use rove.Subnetra.Peer.Indexed.{new_table-to_runtime}
use rove.Subnetra.Tests.{toy}

-- One address and one network for every text.
abbrev one_net : NetText
one_net = record {
  parse_socket = λ s. some record { ip = ipv4 1; port = 9; flowinfo = 0; scope_id = 0 };
  parse_ipv4_net = λ s. some record { addr = 167772160; prefix_len = 24 };
}

abbrev some_key : List ℕ
some_key = replicate 32 0xa7

some_key-IsByte : All IsByte some_key
some_key-IsByte = ground arith

abbrev some_file : SubnetraConfig
some_file = record {
  enable = true;
  mode = ascii " Hub";
  local_id = 1;
  listen = ascii "0.0.0.0:18020";
  overlay_cidr = ascii "10.0.0.1/24";
  obfuscate = true;
  keepalive_secs = 25;
  mtu = none;
  device = ascii "netstack";
  tun = record { name = ascii "rove0"; manage = true };
  proxy_protocol = ascii "http";
  proxy_port = 8080;
  peers =
      record {
        id = 2;
        psk = ascii "a7a7a7a7a7a7a7a7a7a7a7a7a7a7a7a7a7a7a7a7a7a7a7a7a7a7a7a7a7a7a7a7";
        allowed_src = ascii "10.0.0.2/32";
        endpoint = none;
        name = [];
      }
      ∷ [];
}

abbrev some_runtime : RuntimeConfig
some_runtime = record {
  mode = hub;
  local_id = 1;
  listen = record { ip = ipv4 1; port = 9; flowinfo = 0; scope_id = 0 };
  overlay = record { addr = 167772160; prefix_len = 24 };
  obfuscate = true;
  keepalive_secs = 25;
  mtu = 1452;
  device = netstack (some (ascii "http", 8080));
  peers =
      record {
        id = 2;
        psk = some_key;
        allowed_src = record { addr = 167772160; prefix_len = 24 };
        endpoint = none;
        name = [];
      }
      ∷ [];
}

some_file_accepted : to_runtime one_net some_file ≡ ok some_runtime
unfolding to_runtime rove.Subnetra.Config.parse_mode to_ascii_lowercase trim
    rove.Subnetra.Config.resolve_mtu rove.Subnetra.Config.lower_device
    rove.Subnetra.Config.lower_peers parse_psk rove.Subnetra.Config.psk_bytes
    rove.Subnetra.Config.lower_endpoint
some_file_accepted = refl

-- A character across two pairs of digits.
split_character : parse_psk (ascii "0" ++ 0xc3 ∷ 0xa9 ∷ replicate 61 b'0') ≡ err panicked
unfolding parse_psk trim rove.Subnetra.Config.psk_bytes
split_character = refl

-- A plus sign for the first digit of a byte.
plus_sign : parse_psk (ascii "+f" ++ replicate 62 b'0') ≡ ok (15 ∷ replicate 31 0)
unfolding parse_psk trim rove.Subnetra.Config.psk_bytes
plus_sign = refl

to_runtime-IsRuntime_example : IsRuntime some_file some_runtime
to_runtime-IsRuntime_example =
    to_runtime-IsRuntime one_net some_file some_runtime some_file_accepted

new_table-to_runtime_example :
    ((n : ℕ) (p : RuntimePeer)
      → get_elem? some_runtime.peers n ≡ some p
      → (lookup_id p.id (new_table toy some_runtime 5).by_id ≡ some n)
        × (get_elem? (new_table toy some_runtime 5).peers n ≡ some (new_peer toy some_runtime 5 p)))
    × ((id : ℕ)
        → All (λ k. id ≢ k) (ids some_runtime.peers)
        → lookup_id id (new_table toy some_runtime 5).by_id ≡ none)
new_table-to_runtime_example =
    new_table-to_runtime toy one_net some_file some_runtime 5 some_file_accepted
