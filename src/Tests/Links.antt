-- ===== src/Tests/Links.antt =====
-- The tasks of one connection, the bytes it reads, the sessions it comes from, and the netlink socket.
use uip.Base.{
  ℕ, ◌≡◌, refl, List, [], ◌∷◌, ◌++◌, none, some, true, All, arith, ltb, length, if◌then◌else◌,
  Option, ErrorKind, other, Bool-cases, inl, inr,
}
use uip.Change.Netlink.{readable, bytes, Round}
use uip.Tests.Fixtures
use uip.Tests.Fixtures.{bob, ssl}
use uip.Transport.Codec.{Frame, pong, data_frame, encode}
use uip.Transport.Codec.Stream.{feed, flatten}
use uip.Transport.Codec.Wire.{IsFrame}
use uip.Transport.Codec.Stream.Chunks.{drain_all, feed-flatten}
use uip.Transport.Connection.Link.{
  Mpsc, Link, from_tls_stream, sent, read_data, read_ping, write_frame, Reach, initial, next, sends,
  reads_data, reads_ping, writes,
}
use uip.Transport.Connection.Link.Order.{Reach-feed}

abbrev pub some_frames : List Frame → Option (List Frame)
some_frames fs = some fs

abbrev pub send : Frame → List Frame → Option (List Frame)
send f c = if ltb (length c) 10 then some_frames (c ++ f ∷ []) else none

abbrev pub recv : List Frame → Option (Frame × List Frame)
recv [] = none
recv (f ∷ c) = some (f, c)

pub send_lem : (f : Frame) (c c' : List Frame) → send f c ≡ some c' → c' ≡ c ++ f ∷ []
send_lem f c c' e = elim (Bool-cases (ltb (length c) 10)) [
  | inl t ↦ let e' = rw t at e in cc
  | inr n ↦ let e' = rw n at e in cc
]

pub recv_lem : (f : Frame) (c c' : List Frame) → recv c ≡ some (f, c') → c ≡ f ∷ c'
recv_lem f [] c' e = cc
recv_lem f (g ∷ c) c' e = cc

abbrev pub mpsc : Mpsc Frame
mpsc = record {
  Channel = List Frame;
  channel = λ n. [];
  send = send;
  recv = recv;
  contents = λ c. c;
  contents-channel = λ n. refl;
  contents-send = send_lem;
  contents-recv = recv_lem;
}

abbrev hello : Frame
hello = data_frame 80 81 (5 ∷ [])

-- A frame is sent, a ping is answered, a message is read, and the first frame is written.
abbrev l1 : Link mpsc
l1 = sent mpsc hello (hello ∷ []) (from_tls_stream mpsc)

abbrev l2 : Link mpsc
l2 = read_ping mpsc (some (hello ∷ pong ∷ [])) l1

abbrev l3 : Link mpsc
l3 = read_data mpsc bob 90 91 (6 ∷ []) true l2

abbrev l4 : Link mpsc
l4 = write_frame mpsc Fixtures.bytes hello (pong ∷ []) true l3

l4-Reach : Reach mpsc Fixtures.bytes bob l4
unfolding from_tls_stream sent read_ping read_data
l4-Reach =
    next
      (next
        (next (next initial (sends hello (hello ∷ []) refl refl))
          (reads_ping (hello ∷ pong ∷ []) refl refl refl))
        (reads_data 90 91 (6 ∷ []) true refl))
      (writes hello (pong ∷ []) true refl refl)

l4-IsFrame : All IsFrame l4.written
unfolding from_tls_stream sent read_ping read_data write_frame
l4-IsFrame = ((omega arith, omega arith, omega arith), tt)

abbrev wire : List (List ℕ)
wire = (3 ∷ 0 ∷ 80 ∷ 0 ∷ []) ∷ (81 ∷ 0 ∷ 1 ∷ 5 ∷ []) ∷ []

wire_of_link : flatten wire ≡ l4.stream
unfolding from_tls_stream sent read_ping read_data write_frame encode
    uip.Transport.Connection.Tasks.write_task
wire_of_link = refl

Reach-feed_example :
    ((rest : List Frame) × (l4.accepted ≡ l4.written ++ rest))
    × (feed Fixtures.bytes [] wire ≡ (l4.written, []))
Reach-feed_example = Reach-feed mpsc Fixtures.bytes bob l4 wire l4-Reach l4-IsFrame wire_of_link

-- A frame in two pieces and a byte that starts none.
abbrev broken : List (List ℕ)
broken = (1 ∷ 3 ∷ 0 ∷ []) ∷ (80 ∷ 0 ∷ 81 ∷ 0 ∷ 0 ∷ 9 ∷ []) ∷ (1 ∷ []) ∷ []

feed-flatten_example : feed Fixtures.bytes [] broken ≡ drain_all Fixtures.bytes (flatten broken)
feed-flatten_example = feed-flatten Fixtures.bytes broken

abbrev kind : ℕ → ErrorKind
kind n = other

abbrev round : Round kind
round = readable (bytes (7 ∷ []))
