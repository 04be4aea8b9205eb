-- ===== src/Io/Connection/Receiving.antt =====
-- What a reader of a connection sees.
use uip.Base.{ℕ, ◌-◌, ◌<◌, ◌≤◌, ◌≡◌, ap, List, [], some, ok, err, length, take, length-drop, arith}
use uip.Io.Connection.{Buffers, panicked, recv, poll_read, datagram, ready, panics}

-- `recv` of a datagram into a slice of `n` bytes copies the first `n` bytes and returns how many were
-- left over, and panics if the datagram is shorter than the slice.
pub recv_lem :
    (buffers : Buffers) (n : ℕ) (bytes : List ℕ)
    → (n ≤ length bytes → recv buffers n (some bytes) ≡ ok (take n bytes, length bytes - n))
      × (length bytes < n → recv buffers n (some bytes) ≡ err panicked)
unfolding recv
recv_lem buffers n bytes = (
  λ h.
      rw (buffers.copy_to_slice-fits n bytes h, recv)
        (ap (λ k. ok (take n bytes, k)) (length-drop n bytes)),
  λ h. rw (buffers.copy_to_slice-panics n bytes h, recv),
)

-- `poll_read` of a datagram replaces what the buffer held by the whole datagram, and panics if it is
-- longer than the buffer.
pub poll_read_lem :
    (buffers : Buffers) (b filled : List ℕ) (capacity : ℕ)
    → (length b ≤ capacity → poll_read buffers (datagram b) capacity filled ≡ ready b)
      × (capacity < length b → poll_read buffers (datagram b) capacity filled ≡ panics)
unfolding poll_read
poll_read_lem buffers b filled capacity = (
  λ h. rw (buffers.put_slice-fits capacity [] b (omega arith), poll_read),
  λ h. rw (buffers.put_slice-panics capacity [] b (omega arith), poll_read),
)
