-- ===== src/Data/Address.antt =====
-- `std::net::SocketAddrV6` and `std::net::SocketAddr`.
use uip.Base.{ℕ, ◌≡◌, ℕ_discrete}
use uip.Base.Map.{Key}

pub record SocketAddrV6 : Type 0 where
  pub ip : ℕ
  pub port : ℕ
  pub flowinfo : ℕ
  pub scope_id : ℕ

-- What `serde` writes of an address is its ip and its port.
abbrev pub plain : SocketAddrV6 → SocketAddrV6
plain a = record { ip = a.ip; port = a.port; flowinfo = 0; scope_id = 0 }

abbrev pub IsPlain : SocketAddrV6 → Type 0
IsPlain a = (a.flowinfo ≡ 0) × (a.scope_id ≡ 0)

pub record SocketAddrV4 : Type 0 where
  pub ip : ℕ
  pub port : ℕ

pub data SocketAddr : Type 0 where
  v4 : SocketAddrV4 → SocketAddr
  v6 : SocketAddrV6 → SocketAddr

unfoldable pub set_port : ℕ → SocketAddrV6 → SocketAddrV6
set_port port address = record address { port = port }

pub SocketAddrV6-discrete : Discrete SocketAddrV6
SocketAddrV6-discrete = hlevel ℕ_discrete

pub SocketAddr-discrete : Discrete SocketAddr
SocketAddr-discrete = hlevel ℕ_discrete

instance abbrev pub socket_addr_v6_key : Key SocketAddrV6
socket_addr_v6_key = record { dec = SocketAddrV6-discrete }

instance abbrev pub socket_addr_key : Key SocketAddr
socket_addr_key = record { dec = SocketAddr-discrete }
