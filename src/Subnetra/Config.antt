-- ===== src/Subnetra/Config.antt =====
-- The configuration of the overlay, src/subnetra/config.rs: the [subnetra] block and its lowering to
-- the runtime configuration. Parsing of socket addresses is std's and of networks the ipnet crate's.
pub mod Lowered
pub mod Runtime
pub mod Psk
use rove.Base.{
  ℕ, zero, suc, ◌+◌, ◌-◌, ◌*◌, ◌/◌, ◌%◌, ◌^◌, ◌≤◌, ◌<◌, min, max, bit_and, bit_or, bit_xor,
}
use rove.Base.{
  ◌≡◌, refl, sym, ap, ◌∙◌, ◌≢◌, ◌↔◌, ◌⊎◌, inl, inr, Bool, true, false, not, ◌&&◌, ◌||◌, Option,
  none, some, List, [], ◌∷◌, ◌++◌, map, arith,
}
use rove.Base.{
  ltb, leb, ◌==◌, if◌then◌else◌, ltb→lt, lt→ltb, leb→le, le→leb, le→ltb_false, ==_iff, Bool-cases,
  Option-cases,
}
use rove.Base.{
  drop-append_add, All-take, All-append, replicate, length, get_elem?, set, take, drop, any, all,
  All, length-append, length-take, length-drop, take-append_length, drop-append_length,
  take-append-drop, any-append, length-set, get_elem?-set_self, get_elem?-set_ne,
}
use rove.Base.Bytes.{
  ascii, IsByte, to_le_bytes, to_be_bytes, from_le_bytes, from_be_bytes, slice, byte_at, xor_prefix,
  length-to_le_bytes, length-to_be_bytes, from_le_bytes-to_le_bytes, from_be_bytes-to_be_bytes,
  to_le_bytes-IsByte, length-xor_prefix, xor_prefix_twice, xor_prefix-append,
}
use rove.Base.Eq.{Eq, same, same_refl, list_beq, list_beq_iff, member, nat_eq, list_eq}
use rove.Base.Bytes.{ascii}
use rove.Base.Text.{
  Text, is_empty, to_ascii_lowercase, trim, trim_matches, strip_prefix, contains_text, split_on,
  split_once, join_with,
}
use rove.Base.Text.Split.{IsFree, split_on-IsFree, split_on-join_with}
use rove.Base.Result.{Result, ok, err, ◌>>=◌, ensure, ok_or}
use rove.Base.Assoc.{find, has_key, insert}
use rove.Base.Text.{strip_space}
use rove.Net.{SocketAddr, Ipv4Net}
use rove.Subnetra.Crypto.{key_len}

abbrev pub inner_mtu : ℕ
inner_mtu = 1452

abbrev pub min_inner_mtu : ℕ
min_inner_mtu = 576

pub record TunConfig : Type 0 where
  pub name : Text
  pub manage : Bool

pub record PeerConfig : Type 0 where
  pub id : ℕ
  pub psk : Text
  pub allowed_src : Text
  pub endpoint : Option Text
  pub name : Text

pub record SubnetraConfig : Type 0 where
  pub enable : Bool
  pub mode : Text
  pub local_id : ℕ
  pub listen : Text
  pub overlay_cidr : Text
  pub obfuscate : Bool
  pub keepalive_secs : ℕ
  pub mtu : Option ℕ
  pub device : Text
  pub tun : TunConfig
  pub proxy_protocol : Text
  pub proxy_port : ℕ
  pub peers : List PeerConfig

pub data Mode : Type 0 where
  hub spoke : Mode

pub data Device : Type 0 where
  netstack : Option (Text × ℕ) → Device
  tun_device : Text → Bool → Device

pub record RuntimePeer : Type 0 where
  pub id : ℕ
  pub psk : List ℕ
  pub allowed_src : Ipv4Net
  pub endpoint : Option SocketAddr
  pub name : Text

pub record RuntimeConfig : Type 0 where
  pub mode : Mode
  pub local_id : ℕ
  pub listen : SocketAddr
  pub overlay : Ipv4Net
  pub obfuscate : Bool
  pub keepalive_secs : ℕ
  pub mtu : ℕ
  pub device : Device
  pub peers : List RuntimePeer

-- The kinds of refusal; the last is a panic, at a slice inside a character.
pub data ConfigError : Type 0 where
  bad_mode zero_local_id bad_listen bad_overlay no_peers bad_mtu : ConfigError
  bad_proxy_protocol zero_proxy_port tun_with_proxy tun_name_empty : ConfigError
  tun_name_long tun_name_invalid bad_device : ConfigError
  zero_peer_id local_peer_id duplicate_peer_id bad_psk_length psk_not_hex : ConfigError
  bad_allowed_src bad_endpoint missing_endpoint panicked : ConfigError

-- What `str::parse` returns for a socket address and an `Ipv4Net`.
pub record NetText : Type 0 where
  pub parse_socket : Text → Option SocketAddr
  pub parse_ipv4_net : Text → Option Ipv4Net

unfoldable pub hub_proxy : RuntimeConfig → Option (Text × ℕ)
hub_proxy c = elim (c.device) [ netstack proxy ↦ proxy | tun_device name manage ↦ none ]

unfoldable pub parse_mode : Text → Result ConfigError Mode
parse_mode s =
    let word = to_ascii_lowercase (trim s) in
    if list_beq word (ascii "hub")
    then ok hub
    else (if list_beq word (ascii "spoke") then ok spoke else err bad_mode)

-- The value of a hexadecimal digit of either case.
abbrev pub hex_value : ℕ → Option ℕ
hex_value c =
    if leb b'0' c && leb c b'9'
    then some (c - b'0')
    else (if leb b'a' c && leb c b'f'
        then some (c - b'a' + 10)
        else (if leb b'A' c && leb c b'F' then some (c - b'A' + 10) else none))

abbrev pub two_digits : Option ℕ → Option ℕ → Option ℕ
two_digits none y = none
two_digits (some x) none = none
two_digits (some x) (some y) = some (x * 16 + y)

-- `u8::from_str_radix(_, 16)` of two bytes; a plus sign may stand for the first digit.
abbrev pub from_str_radix : ℕ → ℕ → Option ℕ
from_str_radix a b = if a == b'+' then hex_value b else two_digits (hex_value a) (hex_value b)

-- A slice cannot start or end in front of such a byte.
abbrev pub is_continuation : ℕ → Bool
is_continuation b = leb 0x80 b && ltb b 0xc0

abbrev pub starts_inside : Text → Bool
starts_inside [] = false
starts_inside (b ∷ s) = is_continuation b

-- A text of even length, two bytes at a time.
unfoldable pub psk_bytes : Text → Result ConfigError (List ℕ)
psk_bytes [] = ok []
psk_bytes (a ∷ []) = err panicked
psk_bytes (a ∷ b ∷ s) = do
  _ ← ensure (not (is_continuation a || starts_inside s)) panicked
  byte ← ok_or (from_str_radix a b) psk_not_hex
  rest ← psk_bytes s
  ok (byte ∷ rest)

unfoldable pub parse_psk : Text → Result ConfigError (List ℕ)
parse_psk s = do _ ← ensure (length (trim s) == key_len * 2) bad_psk_length; psk_bytes (trim s)

unfoldable pub resolve_mtu : Option ℕ → Result ConfigError ℕ
resolve_mtu none = ok inner_mtu
resolve_mtu (some v) = do _ ← ensure (leb min_inner_mtu v && leb v inner_mtu) bad_mtu; ok v

abbrev pub has_space : Text → Bool
has_space [] = false
has_space (c ∷ s) = (elim (strip_space (c ∷ s)) [ none ↦ false | some rest ↦ true ]) || has_space s

unfoldable pub lower_netstack : Mode → SubnetraConfig → Result ConfigError Device
lower_netstack spoke c = ok (netstack none)
lower_netstack hub c = do
  let proto = to_ascii_lowercase (trim c.proxy_protocol)
  _ ← ensure (list_beq proto (ascii "http") || list_beq proto (ascii "socks5")) bad_proxy_protocol
  _ ← ensure (not (c.proxy_port == 0)) zero_proxy_port
  ok (netstack (some (proto, c.proxy_port)))

unfoldable pub lower_tun : SubnetraConfig → Result ConfigError Device
lower_tun c = do
  _ ← ensure (is_empty (trim c.proxy_protocol) && c.proxy_port == 0) tun_with_proxy
  let name = trim c.tun.name
  _ ← ensure (not (is_empty name)) tun_name_empty
  _ ← ensure (leb (length name) 15) tun_name_long
  _ ← ensure (not (has_space name || any (λ b. b == b'/' || b == 0) name)) tun_name_invalid
  ok (tun_device name c.tun.manage)

unfoldable pub lower_device : Mode → SubnetraConfig → Result ConfigError Device
unfolding lower_netstack lower_tun
lower_device mode c =
    let word = to_ascii_lowercase (trim c.device) in
    if list_beq word (ascii "netstack")
    then lower_netstack mode c
    else (if list_beq word (ascii "tun") then lower_tun c else err bad_device)

-- A spoke has to know where each peer is.
abbrev pub can_dial : Mode → Option SocketAddr → Bool
can_dial hub endpoint = true
can_dial spoke none = false
can_dial spoke (some a) = true

module _ (net : NetText) where
  unfoldable pub lower_endpoint : Option Text → Result ConfigError (Option SocketAddr)
  lower_endpoint none = ok none
  lower_endpoint (some ep) = do a ← ok_or (net.parse_socket (trim ep)) bad_endpoint; ok (some a)

  unfoldable pub lower_peers :
      Mode → ℕ → List ℕ → List PeerConfig → Result ConfigError (List RuntimePeer)
  lower_peers mode local_id seen [] = ok []
  lower_peers mode local_id seen (p ∷ ps) = do
    _ ← ensure (not (p.id == 0)) zero_peer_id
    _ ← ensure (not (p.id == local_id)) local_peer_id
    _ ← ensure (not (member p.id seen)) duplicate_peer_id
    psk ← parse_psk p.psk
    allowed_src ← ok_or (net.parse_ipv4_net (trim p.allowed_src)) bad_allowed_src
    endpoint ← lower_endpoint p.endpoint
    _ ← ensure (can_dial mode endpoint) missing_endpoint
    rest ← lower_peers mode local_id (p.id ∷ seen) ps
    ok (
        record {
          id = p.id;
          psk = psk;
          allowed_src = allowed_src;
          endpoint = endpoint;
          name = p.name;
        }
        ∷ rest)

  unfoldable pub to_runtime : SubnetraConfig → Result ConfigError RuntimeConfig
  to_runtime c = do
    mode ← parse_mode c.mode
    _ ← ensure (not (c.local_id == 0)) zero_local_id
    listen ← ok_or (net.parse_socket (trim c.listen)) bad_listen
    overlay ← ok_or (net.parse_ipv4_net (trim c.overlay_cidr)) bad_overlay
    _ ← ensure (not (is_empty c.peers)) no_peers
    mtu ← resolve_mtu c.mtu
    device ← lower_device mode c
    peers ← lower_peers mode c.local_id [] c.peers
    ok record {
      mode = mode;
      local_id = c.local_id;
      listen = listen;
      overlay = overlay;
      obfuscate = c.obfuscate;
      keepalive_secs = c.keepalive_secs;
      mtu = mtu;
      device = device;
      peers = peers;
    }
