-- ===== src/Change/Netlink.antt =====
-- network/change/rtnetlink_socket.rs and network/change/mod.rs: the socket on which the kernel tells of
-- changed routes. The crate `nix` and tokio's `AsyncFd` are answers and parameters.
pub mod Reading
use uip.Base.{
  ℕ, ◌+◌, ◌-◌, List, [], ◌∷◌, ◌++◌, Option, none, some, Result, ok, err, ErrorKind, other, ◌>>=◌,
}
use uip.Change.Debounce.{Poll, ready, pending, Stream, Debounce, debounce}

-- `nix::Error`
pub data NixError : Type 0 where
  sys : ℕ → NixError
  invalid_path invalid_utf8 unsupported_operation : NixError

-- `kind` is that of `io::Error::from(Errno)`.
unfoldable pub nix_error_to_io_error : (kind : ℕ → ErrorKind) → NixError → ErrorKind
nix_error_to_io_error kind (sys err_no) = kind err_no
nix_error_to_io_error kind invalid_path = other
nix_error_to_io_error kind invalid_utf8 = other
nix_error_to_io_error kind unsupported_operation = other

-- The system calls of `bind`, by the answers that they give: `socket` for a raw netlink socket that is
-- closed on exec and does not block, `getpid`, `bind` at an address of a process and groups, and
-- `AsyncFd::new`.
pub record System : Type 0 where
  pub socket : Result ℕ NixError
  pub pid : ℕ
  pub bind : (fd pid groups : ℕ) → Result (Unit {0}) NixError
  pub async_fd : ℕ → Result ℕ ErrorKind

abbrev map_err {ℓ} : {A : Type ℓ} → (NixError → ErrorKind) → Result A NixError → Result A ErrorKind
map_err f (ok a) = ok a
map_err f (err e) = err (f e)

pub record RtNetlinkSocket : Type 0 where
  pub async_fd : ℕ

module _ (kind : ℕ → ErrorKind) where
  unfoldable pub bind : System → ℕ → Result RtNetlinkSocket ErrorKind
  unfolding nix_error_to_io_error
  bind system groups = do
    sock ← map_err (nix_error_to_io_error kind) system.socket
    _ ← map_err (nix_error_to_io_error kind) (system.bind sock system.pid groups)
    fd ← system.async_fd sock
    ok (record { async_fd = fd })

  -- What `recv` into the unfilled part of the buffer does: the bytes that it wrote there, at most as many
  -- as fit, or an error, of which `try_io` takes `EWOULDBLOCK` out.
  pub data Received : Type 0 where
    bytes : List ℕ → Received
    failed : NixError → Received
    would_block : Received

  -- What a round of the loop of `poll_read` meets: `poll_read_ready` is pending, fails, or is ready, and
  -- then `recv` answers.
  pub data Round : Type 0 where
    not_ready : Round
    unready : ErrorKind → Round
    readable : Received → Round

  -- The answer of `poll_read`, and the filled part of the buffer. `none` stands for a loop that has not
  -- ended after the rounds that are given.
  unfoldable pub poll_read :
      List Round → List ℕ → Option (Poll (Result (Unit {0}) ErrorKind) × List ℕ)
  unfolding nix_error_to_io_error
  poll_read [] filled = none
  poll_read (not_ready ∷ rounds) filled = some (pending, filled)
  poll_read (unready e ∷ rounds) filled = some (ready (err e), filled)
  poll_read (readable (bytes b) ∷ rounds) filled = some (ready (ok tt), filled ++ b)
  poll_read (readable (failed e) ∷ rounds) filled =
      some (ready (err (nix_error_to_io_error kind e)), filled)
  poll_read (readable would_block ∷ rounds) filled = poll_read rounds filled

abbrev pub rtmgrp_ipv4_route : ℕ
rtmgrp_ipv4_route = 0x40

abbrev pub rtmgrp_ipv6_route : ℕ
rtmgrp_ipv6_route = 0x400

-- `reader` is the stream of `ReaderStream::new` on a netlink socket, each item of which becomes `()`;
-- `now` is the clock. The two groups have no bit in common, so their sum is their union.
unfoldable pub listen :
    (kind : ℕ → ErrorKind) (system : System) (reader : Stream (Unit {0}))
    → (RtNetlinkSocket → reader.State)
    → (duration now : ℕ) → Result (Debounce reader) ErrorKind
unfolding bind debounce
listen kind system reader reader_stream duration now = do
  socket ← bind kind system (rtmgrp_ipv6_route + rtmgrp_ipv4_route)
  ok (debounce reader (reader_stream socket) duration now)
