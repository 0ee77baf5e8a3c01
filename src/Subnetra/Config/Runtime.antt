-- ===== src/Subnetra/Config/Runtime.antt =====
-- The whole configuration that is accepted.
use rove.Base.{ℕ, ◌≤◌}
use rove.Base.{
  ◌≡◌, refl, ◌≢◌, ◌⊎◌, inl, inr, Bool, true, not, ◌&&◌, ◌||◌, Option, none, some, List, [], ◌∷◌,
  arith,
}
use rove.Base.{leb, ◌==◌, leb→le, Bool-cases}
use rove.Base.{length, any}
use rove.Base.Bytes.{ascii}
use rove.Base.Eq.{list_beq, list_beq_iff, nat_eq, list_eq}
use rove.Base.Bytes.{ascii}
use rove.Base.Text.{Text, is_empty, to_ascii_lowercase, trim}
use rove.Base.Result.{Result, ok, err, ensure, ok_or}
use rove.Base.Result.{Holds, Holds-bind, ensure-Holds, ok-Holds}
use rove.Subnetra.Config.{
  Mode, hub, spoke, Device, netstack, tun_device, PeerConfig, SubnetraConfig, RuntimePeer,
  RuntimeConfig, ConfigError, NetText, parse_mode, resolve_mtu, lower_device, lower_netstack,
  lower_tun, has_space, lower_peers, to_runtime, inner_mtu, min_inner_mtu, zero_local_id,
  bad_listen, bad_overlay, no_peers, bad_mtu, bad_proxy_protocol, zero_proxy_port, tun_with_proxy,
  tun_name_empty, tun_name_long, tun_name_invalid,
}
use rove.Subnetra.Config.Lowered.{AreLowered, lower_peers-AreLowered}

-- A hub on the userspace stack serves HTTP or SOCKS5 on a port, and a kernel device has a name of
-- at most 15 bytes.
abbrev pub IsDevice : Mode → Device → Type 0
IsDevice hub (netstack none) = ⊥
IsDevice hub (netstack (some (proto, port))) =
    ((proto ≡ ascii "http") ⊎ (proto ≡ ascii "socks5")) × (port ≢ 0)
IsDevice spoke (netstack none) = Unit
IsDevice spoke (netstack (some proxy)) = ⊥
IsDevice mode (tun_device name manage) = (name ≢ []) × (length name ≤ 15)

pub record IsRuntime (c : SubnetraConfig) (r : RuntimeConfig) : Type 0 where
  pub local_id : r.local_id ≡ c.local_id
  pub nonzero : r.local_id ≢ 0
  pub mtu : (576 ≤ r.mtu) × (r.mtu ≤ 1452)
  pub device : IsDevice r.mode r.device
  pub some_peers : r.peers ≢ []
  pub peers : AreLowered r.mode r.local_id [] c.peers r.peers

resolve_mtu-Holds : (m : Option ℕ) → Holds (λ v. (576 ≤ v) × (v ≤ 1452)) (resolve_mtu m)
unfolding resolve_mtu
resolve_mtu-Holds none = (omega arith, omega arith)
resolve_mtu-Holds (some v) =
    Holds-bind _ _ (ensure (leb min_inner_mtu v && leb v inner_mtu) bad_mtu) _
      (ensure-Holds _ bad_mtu) λ u h. (ground arith, ground arith)

list_cases :
    (x : Text)
    → (list_beq x (ascii "http") || list_beq x (ascii "socks5")) ≡ true
    → (x ≡ ascii "http") ⊎ (x ≡ ascii "socks5")
list_cases x h = elim (Bool-cases (list_beq x (ascii "http"))) [
  | inl e ↦ inl ((list_beq_iff x (ascii "http")).0 e)
  | inr e ↦ inr ((list_beq_iff x (ascii "socks5")).0 (ground arith))
]

filled : (s : Text) → not (is_empty s) ≡ true → s ≢ []
filled [] h e = cc
filled (c ∷ s) h e = cc

lower_netstack-IsDevice :
    (mode : Mode) (c : SubnetraConfig) → Holds (IsDevice mode) (lower_netstack mode c)
unfolding lower_netstack
lower_netstack-IsDevice spoke c = tt
lower_netstack-IsDevice hub c =
    let proto = to_ascii_lowercase (trim c.proxy_protocol) in
    Holds-bind _ _
      (ensure (list_beq proto (ascii "http") || list_beq proto (ascii "socks5")) bad_proxy_protocol)
      _ (ensure-Holds _ bad_proxy_protocol)
      λ u known.
        Holds-bind _ _ (ensure (not (c.proxy_port == 0)) zero_proxy_port) _
          (ensure-Holds _ zero_proxy_port) λ v port. (list_cases proto known, λ e. ground arith)

IsDevice-tun :
    (mode : Mode) (name : Text) (manage : Bool)
    → name ≢ []
    → length name ≤ 15
    → IsDevice mode (tun_device name manage)
IsDevice-tun hub name manage h k = (h, k)
IsDevice-tun spoke name manage h k = (h, k)

lower_tun-IsDevice : (mode : Mode) (c : SubnetraConfig) → Holds (IsDevice mode) (lower_tun c)
unfolding lower_tun
lower_tun-IsDevice mode c =
    let name = trim c.tun.name in
    Holds-bind _ _ (ensure (is_empty (trim c.proxy_protocol) && c.proxy_port == 0) tun_with_proxy) _
      (ensure-Holds _ tun_with_proxy)
      λ u1 h1.
        Holds-bind _ _ (ensure (not (is_empty name)) tun_name_empty) _
          (ensure-Holds _ tun_name_empty)
          λ u2 some_name.
            Holds-bind _ _ (ensure (leb (length name) 15) tun_name_long) _
              (ensure-Holds _ tun_name_long)
              λ u3 short.
                Holds-bind _ _
                  (ensure (not (has_space name || any (λ b. b == b'/' || b == 0) name))
                    tun_name_invalid)
                  _ (ensure-Holds _ tun_name_invalid)
                  λ u4 h4.
                    IsDevice-tun mode name c.tun.manage (filled name some_name)
                      (leb→le (length name) 15 short)

lower_device-IsDevice :
    (mode : Mode) (c : SubnetraConfig) → Holds (IsDevice mode) (lower_device mode c)
unfolding lower_device
lower_device-IsDevice mode c =
    let word = to_ascii_lowercase (trim c.device) in
    elim (Bool-cases (list_beq word (ascii "netstack"))) [
      | inl e ↦ rw (e, Holds) (lower_netstack-IsDevice mode c)
      | inr e ↦ elim (Bool-cases (list_beq word (ascii "tun"))) [
        | inl f ↦ rw (e, f, Holds) (lower_tun-IsDevice mode c)
        | inr f ↦ rw (e, f, Holds) tt
      ]
    ]

always : {A : Type 0} (r : Result ConfigError A) → Holds (λ a. Unit {0}) r
always (ok a) = tt
always (err e) = tt

peers-nonempty :
    (mode : Mode) (local_id : ℕ) (ps : List PeerConfig) (rs : List RuntimePeer)
    → not (is_empty ps) ≡ true
    → AreLowered mode local_id [] ps rs
    → rs ≢ []
peers-nonempty mode local_id [] rs h k e = cc
peers-nonempty mode local_id (p ∷ ps) [] h k e = let ids = k.same_ids in cc
peers-nonempty mode local_id (p ∷ ps) (r ∷ rs) h k e = cc

module _ (net : NetText) where
  to_runtime-Holds : (c : SubnetraConfig) → Holds (IsRuntime c) (to_runtime net c)
  unfolding to_runtime
  to_runtime-Holds c =
      Holds-bind (λ m. Unit {0}) _ (parse_mode c.mode) _ (always _)
        λ mode u1.
          Holds-bind _ _ (ensure (not (c.local_id == 0)) zero_local_id) _
            (ensure-Holds _ zero_local_id)
            λ u2 nonzero.
              Holds-bind (λ a. Unit {0}) _ (ok_or (net.parse_socket (trim c.listen)) bad_listen) _
                (always _)
                λ listen u3.
                  Holds-bind (λ a. Unit {0}) _
                    (ok_or (net.parse_ipv4_net (trim c.overlay_cidr)) bad_overlay) _ (always _)
                    λ overlay u4.
                      Holds-bind _ _ (ensure (not (is_empty c.peers)) no_peers) _
                        (ensure-Holds _ no_peers)
                        λ u5 some_peers.
                          Holds-bind _ _ (resolve_mtu c.mtu) _ (resolve_mtu-Holds c.mtu)
                            λ mtu within.
                              Holds-bind _ _ (lower_device mode c) _ (lower_device-IsDevice mode c)
                                λ device good.
                                  Holds-bind _ _ (lower_peers net mode c.local_id [] c.peers) _
                                    (lower_peers-AreLowered net mode c.local_id [] c.peers)
                                    λ peers lowered. record {
                                      local_id = refl;
                                      nonzero = λ e. ground arith;
                                      mtu = within;
                                      device = good;
                                      some_peers =
                                          peers-nonempty mode c.local_id c.peers peers some_peers
                                            lowered;
                                      peers = lowered;
                                    }

  -- A configuration that is accepted has a node id that is not zero and an MTU from 576 to 1452; a
  -- hub on the userspace stack has a proxy, HTTP or SOCKS5, with a port, a spoke has none, and a
  -- kernel device a name of 1 to 15 bytes. There is a peer; the peers are those of the file in its
  -- order, with distinct ids that are not zero and not the node's own, keys of 32 bytes, and for a
  -- spoke endpoints.
  pub to_runtime-IsRuntime :
      (c : SubnetraConfig) (r : RuntimeConfig) → to_runtime net c ≡ ok r → IsRuntime c r
  to_runtime-IsRuntime c r = ok-Holds (IsRuntime c) (to_runtime net c) r (to_runtime-Holds c)
