-- ===== src/Net.antt =====
-- Socket addresses and IPv4 networks. `Ipv4Net::contains` is of the ipnet crate, and so stays a
-- parameter where it is used; its fields are what `addr()` and `prefix_len()` return.
pub mod StandIns
use rove.Base.{ℕ, ◌^◌, ◌<◌, ◌≡◌, Option, some, List}
use rove.Base.{length, All, ◌==◌, ==_iff, Bool, true, false, ◌&&◌, ◌↔◌, ap, arith}
use rove.Base.Eq.{Eq, list_beq, list_beq_iff, nat_eq}
use rove.Base.Bytes.{IsByte}
use rove.Base.Text.{Text}

-- An IPv4 address is a u32, an IPv6 address its 16 octets.
pub data IpAddr : Type 0 where
  ipv4 : ℕ → IpAddr
  ipv6 : List ℕ → IpAddr

-- Of an IPv4 address the flow information and the scope are 0.
pub record SocketAddr : Type 0 where
  pub ip : IpAddr
  pub port : ℕ
  pub flowinfo : ℕ
  pub scope_id : ℕ

-- `SocketAddr::new`
abbrev pub new_socket : IpAddr → ℕ → SocketAddr
new_socket ip port = record { ip = ip; port = port; flowinfo = 0; scope_id = 0 }

pub record Ipv4Net : Type 0 where
  pub addr : ℕ
  pub prefix_len : ℕ

abbrev pub ip_beq : IpAddr → IpAddr → Bool
ip_beq (ipv4 a) (ipv4 b) = a == b
ip_beq (ipv4 a) (ipv6 b) = false
ip_beq (ipv6 a) (ipv4 b) = false
ip_beq (ipv6 a) (ipv6 b) = list_beq a b

pub ip_beq_iff : (a b : IpAddr) → (ip_beq a b ≡ true) ↔ (a ≡ b)
ip_beq_iff (ipv4 a) (ipv4 b) = (λ h. ap ipv4 ((==_iff a b).0 h), λ h. ground arith)
ip_beq_iff (ipv4 a) (ipv6 b) = (λ h. cc, λ h. cc)
ip_beq_iff (ipv6 a) (ipv4 b) = (λ h. cc, λ h. cc)
ip_beq_iff (ipv6 a) (ipv6 b) =
    (λ h. ap ipv6 ((list_beq_iff a b).0 h), λ h. ground (arith, list_beq_iff a b))

instance abbrev pub ip_eq : Eq IpAddr
ip_eq = record { beq = ip_beq; beq_iff = ip_beq_iff }

abbrev pub socket_beq : SocketAddr → SocketAddr → Bool
socket_beq a b =
    ip_beq a.ip b.ip && (a.port == b.port && (a.flowinfo == b.flowinfo && a.scope_id == b.scope_id))

pub socket_beq_iff : (a b : SocketAddr) → (socket_beq a b ≡ true) ↔ (a ≡ b)
socket_beq_iff a b =
    (λ h. ground (arith, ip_beq_iff a.ip b.ip), λ h. ground (arith, ip_beq_iff a.ip b.ip))

instance abbrev pub socket_eq : Eq SocketAddr
socket_eq = record { beq = socket_beq; beq_iff = socket_beq_iff }

-- An address of the right width.
abbrev pub IsAddr : IpAddr → Type 0
IsAddr (ipv4 a) = a < 2 ^ 32
IsAddr (ipv6 octets) = (length octets ≡ 16) × All IsByte octets

-- `str::parse::<IpAddr>` and `IpAddr::to_string` of the standard library.
pub record AddrText : Type 0 where
  pub parse_ip : Text → Option IpAddr
  pub ip_to_string : IpAddr → Text
  pub parse_ip-IsAddr : (s : Text) (a : IpAddr) → parse_ip s ≡ some a → IsAddr a
  pub parse_ip-ip_to_string : (a : IpAddr) → IsAddr a → parse_ip (ip_to_string a) ≡ some a
