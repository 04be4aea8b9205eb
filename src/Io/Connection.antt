-- ===== src/Io/Connection.antt =====
-- network/io/connection.rs: reading and writing the datagrams of one remote address. The channel, the
-- UDP socket and the buffers of `tokio` and `bytes` are answers and parameters.
pub mod Receiving
use uip.Base.{
  ℕ, ◌+◌, ◌<◌, ◌≤◌, ◌≡◌, ◌++◌, List, [], ◌∷◌, Option, none, some, Result, ok, err, ErrorKind,
  length, take, drop,
}
use uip.Data.Address.{SocketAddr, SocketAddr-discrete}
use uip.Io.Socket.{Connection}

-- `Buf::copy_to_slice` on a `Bytes`, for a slice of the given length: the bytes that are copied and
-- what is left of the `Bytes`; `none` is its panic. `ReadBuf` has its filled part and a capacity.
pub record Buffers : Type 0 where
  pub copy_to_slice : ℕ → List ℕ → Option (List ℕ × List ℕ)
  pub put_slice : ℕ → List ℕ → List ℕ → Option (List ℕ)
  pub copy_to_slice-fits :
      (n : ℕ) (b : List ℕ) → n ≤ length b → copy_to_slice n b ≡ some (take n b, drop n b)
  pub copy_to_slice-panics : (n : ℕ) (b : List ℕ) → length b < n → copy_to_slice n b ≡ none
  pub put_slice-fits :
      (capacity : ℕ) (filled b : List ℕ)
      → length filled + length b ≤ capacity
      → put_slice capacity filled b ≡ some (filled ++ b)
  pub put_slice-panics :
      (capacity : ℕ) (filled b : List ℕ)
      → capacity < length filled + length b
      → put_slice capacity filled b ≡ none

pub data Failure : Type 0 where
  cant_assign_requested_addr closed_listener panicked : Failure
  io : ErrorKind → Failure

-- What `poll_recv` on the channel answers, where the lock is free.
pub data Channel : Type 0 where
  datagram : List ℕ → Channel
  sender_gone not_ready locked : Channel

pub data Poll (A : Type 0) : Type 0 where
  ready : A → Poll A
  pending panics : Poll A

module _ (buffers : Buffers) where
  -- The filled part of the `ReadBuf` afterwards, whose filled part before is `filled`.
  unfoldable pub poll_read : Channel → ℕ → List ℕ → Poll (List ℕ)
  poll_read (datagram b) capacity filled = elim (buffers.put_slice capacity [] b) [
    | none ↦ panics
    | some filled' ↦ ready filled'
  ]
  poll_read sender_gone capacity filled = ready filled
  poll_read not_ready capacity filled = pending
  poll_read locked capacity filled = pending

  -- `recv` into a slice of `n` bytes: the bytes of the slice and the returned number. `none` as the
  -- received datagram is a closed channel.
  unfoldable pub recv : ℕ → Option (List ℕ) → Result (List ℕ × ℕ) Failure
  recv n none = err closed_listener
  recv n (some bytes) = elim (buffers.copy_to_slice n bytes) [
    | none ↦ err panicked
    | some (copied, left) ↦ ok (copied, length left)
  ]

  unfoldable pub recv_from :
      Connection → ℕ → Option (List ℕ) → Result (List ℕ × ℕ × SocketAddr) Failure
  recv_from conn n none = err closed_listener
  recv_from conn n (some bytes) = elim (buffers.copy_to_slice n bytes) [
    | none ↦ err panicked
    | some (copied, left) ↦ ok (copied, length left, conn.remote_addr)
  ]

unfoldable pub connect : Connection → SocketAddr → Result (Unit {0}) Failure
connect conn addr = elim (SocketAddr-discrete conn.remote_addr addr) [
  | yes _ ↦ ok tt
  | no _ ↦ err cant_assign_requested_addr
]

-- `send_udp` is `UdpSocket::send_to`.
module _ (send_udp : List ℕ → SocketAddr → Result ℕ ErrorKind) where
  unfoldable pub send : Connection → List ℕ → Result ℕ Failure
  send conn buf = elim (send_udp buf conn.remote_addr) [ ok n ↦ ok n | err e ↦ err (io e) ]

  unfoldable pub send_to : Connection → List ℕ → SocketAddr → Result ℕ Failure
  unfolding send
  send_to conn buf target = elim (SocketAddr-discrete target conn.remote_addr) [
    | yes _ ↦ send conn buf
    | no _ ↦ err cant_assign_requested_addr
  ]

-- `incoming` is the channel's number.
unfoldable pub new : ℕ → SocketAddr → SocketAddr → Connection
new incoming local_addr remote_addr = record {
  incoming = incoming;
  local_addr = local_addr;
  remote_addr = remote_addr;
}

-- `poll_send_to` is that of the UDP socket.
module _ (poll_send_to : List ℕ → SocketAddr → Poll (Result ℕ ErrorKind)) where
  unfoldable pub poll_write : Connection → List ℕ → Poll (Result ℕ ErrorKind)
  poll_write conn buf = poll_send_to buf conn.remote_addr

unfoldable pub poll_flush : Connection → Poll (Result (Unit {0}) ErrorKind)
poll_flush conn = ready (ok tt)

unfoldable pub poll_shutdown : Connection → Poll (Result (Unit {0}) ErrorKind)
poll_shutdown conn = ready (ok tt)

unfoldable pub close : Connection → Result (Unit {0}) Failure
close conn = ok tt

unfoldable pub local_addr : Connection → Result SocketAddr Failure
local_addr conn = ok conn.local_addr

unfoldable pub remote_addr : Connection → Option SocketAddr
remote_addr conn = some conn.remote_addr
