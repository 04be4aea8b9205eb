-- ===== src/Tests/Hosts.antt =====
-- A message from a program of one host to a program of another.
use uip.Base.{ℕ, ◌≡◌, refl, sym, ap, List, [], ◌∷◌, ◌++◌, some, true, ok, All, arith, Elem, if_pos}
use uip.Base.Map
use uip.Base.Map.{eq?, get-insert_self}
use uip.Data.Identifier.{Identifier, identifier_key}
use uip.Hosts
use uip.Hosts.{
  Content, passed_on, messages, received, offered, climbing, incoming, IsStart, near_steps,
  forwards, link_steps, arrives, hands, far_steps,
}
use uip.Hosts.Delivery.{Reach-received, Reach-offered}
use uip.Hosts.Far.{incoming-climbing}
use uip.Hosts.Near.{Sent}
use uip.Network.Peers.{send_frame, find_connection}
use uip.Network.Peers.Sending.{send_frame_registered}
use uip.Network.Quiet.{upstreams}
use uip.Tests.Fixtures
use uip.Tests.Fixtures.{bob, pack, connected, started}
use uip.Tests.Links.{mpsc}
use uip.Tests.Programs.{env, awaiting}
use uip.Transport.Codec.{Frame, data_frame, encode}
use uip.Transport.Codec.Stream.{feed, flatten, encode_all, feed-encode_all}
use uip.Transport.Codec.Wire.{IsFrame}
use uip.Transport.Connection.Link.{from_tls_stream, sent, write_frame, writes}
use uip.Unix.Codec as Codec
use uip.Unix.Codec.{bind}
use uip.Unix.State.{port_key}
use uip.Unix.State.Programs
use uip.Unix.State.Programs.{start, opened, read_round, delivered, accepts, opens, reads}
use uip.Unix.State.Programs.Registered.{AllAllowed, events}
use uip.World.{World, Connection, frame_sent}
use mathlib.Core.List.{Sublistᴰ}

abbrev carol : Identifier
carol = record { bytes = 7 ∷ [] }

-- A program binds a port.
abbrev bound : ℕ → Programs.System
bound q = opened (some (ok (bind q))) (awaiting (start []))

bound-Reach : (q : ℕ) → Programs.Reach env (start []) (bound q)
unfolding start
bound-Reach q =
    Programs.next (Programs.next Programs.initial (accepts refl)) (opens (some (ok (bind q))) refl)

-- It sends a message to bob.
abbrev near : Programs.System
near = read_round env 0 80 (some (ok (Codec.data_frame bob 90 (5 ∷ [])))) (bound 80)

abbrev hello : Content
hello = record { src_port = 80; dst_port = 90; payload = 5 ∷ [] }

abbrev frame : Frame
frame = data_frame 80 90 (5 ∷ [])

-- The two daemons before the first message: one of them has a connection to `bob`.
abbrev s0 : Hosts.System mpsc
s0 = record {
  near = start [];
  taken = [];
  near_network = connected;
  forwarded = [];
  link = from_tls_stream mpsc;
  chunks = [];
  frames = [];
  far_network = started;
  seen = [];
  handed = [];
  far = start [];
}

s0-IsStart : IsStart mpsc [] [] carol s0
s0-IsStart = record {
  near = refl;
  taken = refl;
  forwarded = refl;
  link = refl;
  chunks = refl;
  frames = refl;
  far_network = refl;
  seen = refl;
  handed = refl;
  far = refl;
}

abbrev near_conn : Connection
near_conn = record { sink = 3 }

abbrev far_conn : Connection
far_conn = record { sink = 9 }

abbrev Reach : Hosts.System mpsc → Type 0
Reach =
    Hosts.Reach mpsc Fixtures.bytes pack env env Fixtures.env Fixtures.env carol bob near_conn
      far_conn s0

near_run : (t : Programs.System) → Programs.Reach env (start []) t → Reach (record s0 { near = t })
near_run _ Programs.initial = Hosts.initial
near_run u (Programs.next {t} r st) = Hosts.next (near_run t r) (near_steps u st)

near-Reach : Programs.Reach env (start []) near
unfolding start opened
near-Reach =
    Programs.next (bound-Reach 80)
      (reads 0 80 (some (ok (Codec.data_frame bob 90 (5 ∷ [])))) (get-insert_self 0 80 []))

-- Each part takes its step.
abbrev s1 : Hosts.System mpsc
s1 = record s0 { near = near }

abbrev s2 : Hosts.System mpsc
s2 = record s1 {
  taken = hello ∷ [];
  near_network = (send_frame Fixtures.env bob 80 90 (5 ∷ []) connected).1;
  forwarded = hello ∷ [];
  link = sent mpsc frame (frame ∷ []) s1.link;
}

abbrev s3 : Hosts.System mpsc
s3 = record s2 { link = write_frame mpsc Fixtures.bytes frame [] true s2.link }

abbrev s4 : Hosts.System mpsc
s4 = record s3 { far = bound 90 }

abbrev s5 : Hosts.System mpsc
s5 = record s4 { chunks = (3 ∷ 0 ∷ 80 ∷ 0 ∷ 90 ∷ 0 ∷ []) ∷ [] }

abbrev s6 : Hosts.System mpsc
s6 = record s5 { chunks = s5.chunks ++ (1 ∷ 5 ∷ []) ∷ [] }

abbrev s7 : Hosts.System mpsc
s7 = record s6 {
  frames = frame ∷ [];
  far_network = incoming Fixtures.env pack far_conn carol frame started;
}

abbrev s8 : Hosts.System mpsc
s8 = record s7 {
  seen = hello ∷ [];
  handed = hello ∷ [];
  far = delivered env carol 80 90 (5 ∷ []) s7.far;
}

is_passed_on : passed_on bob near.world.trace ≡ hello ∷ []
unfolding read_round opened start
is_passed_on = if_pos (eq? bob bob) refl (hello ∷ []) []

found : find_connection connected.store bob (0 ∷ []) ≡ some near_conn
unfolding find_connection Map.get
found = ground arith

put_on :
    (send_frame Fixtures.env bob 80 90 (5 ∷ []) connected).1.trace
    ≡ frame_sent near_conn frame true ∷ []
put_on =
    ap (λ (w : World). w.trace)
      (send_frame_registered Fixtures.env bob 80 90 (5 ∷ []) connected near_conn found)

s1-Reach : Reach s1
s1-Reach = near_run near near-Reach

s2-Reach : Reach s2
unfolding from_tls_stream
s2-Reach =
    Hosts.next s1-Reach (forwards hello [] frame (frame ∷ []) is_passed_on found put_on refl refl)

s3-Reach : Reach s3
unfolding from_tls_stream sent write_frame
s3-Reach = Hosts.next s2-Reach (link_steps s3.link (writes frame [] true refl refl) refl)

s4-Reach : Reach s4
unfolding start opened
s4-Reach =
    Hosts.next (Hosts.next s3-Reach (far_steps (awaiting (start [])) (accepts refl) refl))
      (far_steps (bound 90) (opens (some (ok (bind 90))) refl) refl)

s6-Reach : Reach s6
s6-Reach =
    Hosts.next (Hosts.next s4-Reach (arrives (3 ∷ 0 ∷ 80 ∷ 0 ∷ 90 ∷ 0 ∷ []))) (arrives (1 ∷ 5 ∷ []))

is_frame : All IsFrame (frame ∷ [])
is_frame = ((omega arith, omega arith, omega arith), tt)

arrived : flatten s6.chunks ≡ encode_all Fixtures.bytes (frame ∷ []) []
unfolding encode_all encode
arrived = refl

is_read : feed Fixtures.bytes [] s6.chunks ≡ (frame ∷ [], [])
is_read = feed-encode_all Fixtures.bytes (frame ∷ []) s6.chunks is_frame arrived

s7-Reach : Reach s7
s7-Reach =
    Hosts.next s6-Reach (Hosts.reads frame [] (ap (λ (p : List Frame × List ℕ). p.0) is_read))

climbs : climbing carol (upstreams s7.far_network.trace) ≡ hello ∷ []
climbs = incoming-climbing Fixtures.env pack far_conn carol frame started

s8-Reach : Reach s8
s8-Reach = Hosts.next s7-Reach (hands hello [] climbs)

written : All IsFrame s8.link.written
unfolding from_tls_stream sent write_frame
written = is_frame

accepted : All IsFrame s8.link.accepted
unfolding from_tls_stream sent write_frame
accepted = is_frame

none_lost : Sublistᴰ (frame ∷ []) s8.link.written
unfolding from_tls_stream sent write_frame
none_lost = Sublistᴰ.cons-cons refl Sublistᴰ.slnil

Reach-received_example :
    Sublistᴰ (received carol s8.far.log) (messages (passed_on bob s8.near.world.trace))
    × ((m : Content) → Elem m (received carol s8.far.log) → Sent bob m s8.near.log)
    × AllAllowed s8.far.log
    × (s8.far.world.trace ≡ events env s8.far.log)
Reach-received_example =
    Reach-received mpsc Fixtures.bytes pack env env Fixtures.env Fixtures.env carol bob near_conn
      far_conn [] [] s0 s8 (frame ∷ []) [] s0-IsStart s8-Reach written none_lost arrived

forwarded_all : s8.forwarded ≡ passed_on bob s8.near.world.trace
forwarded_all = sym is_passed_on

written_all : s8.link.written ≡ s8.link.accepted
unfolding from_tls_stream sent write_frame
written_all = refl

arrived_all : flatten s8.chunks ≡ s8.link.stream
unfolding from_tls_stream sent write_frame encode uip.Transport.Connection.Tasks.write_task
arrived_all = refl

Reach-offered_example :
    (offered carol s8.far.log ≡ messages (passed_on bob s8.near.world.trace))
    × AllAllowed s8.far.log
    × (s8.far.world.trace ≡ events env s8.far.log)
Reach-offered_example =
    Reach-offered mpsc Fixtures.bytes pack env env Fixtures.env Fixtures.env carol bob near_conn
      far_conn [] [] s0 s8 s0-IsStart s8-Reach accepted forwarded_all written_all arrived_all
      (sym (ap (λ (p : List Frame × List ℕ). p.0) is_read)) (sym climbs)
