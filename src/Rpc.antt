-- ===== src/Rpc.antt =====
-- rpc/server.rs: the device that hands out sockets for local services. Its interface is generated from
-- uipd.capnp: what it gives for the parameters of a call, and `new_client`, are parameters.
use uip.Base.{ℕ, List, Result, ok, ◌>>=◌, ◌≡◌, refl}

-- The channel to the network half, which is a number.
pub record LocalDevice : Type 0 where
  pub upstream : ℕ

pub record Socket : Type 0 where
  pub local_service : List ℕ
  pub upstream : ℕ

unfoldable pub new : ℕ → LocalDevice
new upstream = record { upstream = upstream }

-- `LocalDevice::open`
unfoldable pub open_socket : List ℕ → LocalDevice → Socket
open_socket local_service device = record {
  local_service = local_service;
  upstream = device.upstream;
}

-- `OpenParams` with `get` and `get_local_service`, `new_client`, and the error of the crate `capnp`.
pub record Capnp : Type 1 where
  pub Error : Type 0
  pub OpenParams : Type 0
  pub Reader : Type 0
  pub Client : Type 0
  pub get : OpenParams → Result Reader Error
  pub get_local_service : Reader → Result (List ℕ) Error
  pub new_client : Socket → Client

module _ (capnp : Capnp) where
  open capnp use {Error, OpenParams, Client, get, get_local_service, new_client}

  -- `local_device::Server::open`: the client that `set_sock` puts in the results, or the error with which
  -- `pry!` ends the promise.
  unfoldable pub serve_open : OpenParams → LocalDevice → Result Client Error
  unfolding open_socket
  serve_open params device = do
    reader ← get params
    local_service ← get_local_service reader
    ok (new_client (open_socket local_service device))

  -- A call whose parameters name a service is answered with a socket for that service that sends to
  -- where the device sends.
  pub serve_open_lem :
      (params : OpenParams) (reader : capnp.Reader) (local_service : List ℕ) (upstream : ℕ)
      → get params ≡ ok reader
      → get_local_service reader ≡ ok local_service
      → serve_open params (new upstream)
        ≡ ok (new_client (record { local_service = local_service; upstream = upstream }))
  unfolding serve_open new
  serve_open_lem params reader local_service upstream e f = rw e (rw f refl)
