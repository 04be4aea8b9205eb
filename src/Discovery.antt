-- ===== src/Discovery.antt =====
-- network/discovery/ and network/local_address.rs: the addresses that a socket is opened on.
pub mod Results
use uip.Base.{
  ℕ, ◌-◌, List, [], ◌∷◌, ◌++◌, Option, none, some, Result, ok, err, ◌>>=◌, Bool, true, false, not,
  ◌&&◌, if◌then◌else◌, take, replicate, length, min, ℕ_discrete,
}
use uip.Base.Map.{Key}
use uip.Data.Address.{SocketAddr, SocketAddrV6, v4, v6}

abbrev pub interface_name_size : ℕ
interface_name_size = 16

-- `InterfaceName([u8; INTERFACE_NAME_SIZE])`
pub record InterfaceName : Type 0 where
  pub bytes : List ℕ

-- `[0u8; 16]` with its first `max` bytes copied from the slice.
unfoldable pub copy_from_slice : List ℕ → InterfaceName
copy_from_slice slice =
    let max = min (length slice) interface_name_size in
    record { bytes = take max slice ++ replicate (interface_name_size - max) 0 }

unfoldable pub as_ref : InterfaceName → List ℕ
as_ref name = name.bytes

-- `Display` and `Debug`: `from_utf8_lossy` is `String::from_utf8_lossy`, with the text as code points. The
-- zeros behind a short name are written too.
unfoldable pub display : (from_utf8_lossy : List ℕ → List ℕ) → InterfaceName → List ℕ
display from_utf8_lossy name = from_utf8_lossy name.bytes

pub record LocalAddress : Type 0 where
  pub interface : InterfaceName
  pub address : SocketAddrV6

unfoldable pub new : List ℕ → SocketAddrV6 → LocalAddress
unfolding copy_from_slice
new interface address = record { interface = copy_from_slice interface; address = address }

pub data AddressDiscoveryError : Type 0 where
  interfaces_error : List ℕ → AddressDiscoveryError

unfoldable pub description : AddressDiscoveryError → List ℕ
description (interfaces_error text) = text

-- What `discover_addresses` reads of the crate `interfaces`.
pub record Interfaces : Type 1 where
  pub Interface : Type 0
  pub is_loopback : Interface → Bool
  -- `flags.contains(IFF_RUNNING)`
  pub is_running : Interface → Bool
  pub name : Interface → List ℕ
  -- the field `addr` of each element of `addresses`
  pub addresses : Interface → List (Option SocketAddr)

-- `is_global` is `Ipv6Addr::is_global` of the standard library.
module _ (api : Interfaces) (is_global : ℕ → Bool) where
  open api use {Interface, is_loopback, is_running, name, addresses}

  -- The closure of `filter_map`.
  unfoldable pub local_address : List ℕ → Option SocketAddr → Option LocalAddress
  local_address interface none = none
  local_address interface (some (v4 addr)) = none
  local_address interface (some (v6 addr)) =
      if is_global addr.ip then some (new interface addr) else none

  unfoldable pub local_addresses : List ℕ → List (Option SocketAddr) → List LocalAddress
  local_addresses interface [] = []
  local_addresses interface (a ∷ more) =
      let rest = local_addresses interface more in
      elim (local_address interface a) [ none ↦ rest | some l ↦ l ∷ rest ]

  unfoldable pub collect : List Interface → List LocalAddress
  collect [] = []
  collect (i ∷ is) =
      let rest = collect is in
      if not (is_loopback i) && is_running i
      then local_addresses (name i) (addresses i) ++ rest
      else rest

  -- `all` is the answer of `Interface::get_all()`, with the text of its error.
  unfoldable pub discover_addresses :
      Result (List Interface) (List ℕ) → Result (List LocalAddress) AddressDiscoveryError
  discover_addresses (ok all) = ok (collect all)
  discover_addresses (err text) = err (interfaces_error text)
