-- ===== src/Unix/State.antt =====
-- unix/state.rs: local programs, each bound to a port by its connection to the control socket.
pub mod Ports
pub mod Programs
use uip.Base.{
  ℕ, suc, List, [], ◌∷◌, Option, none, some, Bool, true, false, Result, ok, err, if◌then◌else◌,
}
use uip.Base.{ErrorKind, not_found, ℕ_discrete}
use uip.Base.Map
use uip.Base.Map.{Map, Key, keys}
use uip.Data.Identifier.{Identifier}
use uip.Unix.Codec.{Frame, bind, data_frame, error, CodecError}

abbrev pub Sender : Type 0
Sender = ℕ

instance abbrev pub port_key : Key ℕ
port_key = record { dec = ℕ_discrete }

pub record UnixState : Type 0 where
  pub ctl_socket : List ℕ
  pub connections : Map ℕ Sender

-- What was sent, and whether it was accepted.
pub data Event : Type 0 where
  upstream_sent : Identifier → ℕ → ℕ → List ℕ → Bool → Event
  locally_sent : Sender → Frame → Bool → Event

-- Whether the channel to the network half, or that of a local program, takes a message. The list is
-- of what happened before, latest first.
pub record Env : Type 0 where
  pub upstream_open : List Event → Bool
  pub sender_open : Sender → List Event → Bool

pub record World : Type 0 where
  pub state : UnixState
  pub next_sender : Sender
  pub trace : List Event

unfoldable pub new : List ℕ → UnixState
new ctl_socket = record { ctl_socket = ctl_socket; connections = [] }

unfoldable pub ctl_socket : UnixState → List ℕ
ctl_socket s = s.ctl_socket

-- What `read_half.next()` gives: an item, or `none` at the end of the stream.
abbrev pub Item : Type 0
Item = Option (Result Frame CodecError)

-- The channel of a write task, which forwards what it receives to the stream.
unfoldable pub spawn_write_task : ℕ → World → World
spawn_write_task src_port w = record w {
  state = record w.state { connections = Map.insert src_port w.next_sender w.state.connections };
  next_sender = suc w.next_sender;
}

-- The port of the read task that is spawned, if one is.
unfoldable pub handle_new_stream : Item → World → Option ℕ × World
unfolding spawn_write_task
handle_new_stream (some (ok (bind src_port))) w = (some src_port, spawn_write_task src_port w)
handle_new_stream (some (ok (data_frame _ _ _))) w = (none, w)
handle_new_stream (some (ok (error code))) w = (none, w)
handle_new_stream (some (err e)) w = (none, w)
handle_new_stream none w = (none, w)

unfoldable pub used_ports : World → List ℕ
used_ports w = keys w.state.connections

module _ (env : Env) where
  unfoldable pub send_frame : Identifier → ℕ → ℕ → List ℕ → World → World
  send_frame host_id src_port dst_port payload w = record w {
    trace = upstream_sent host_id src_port dst_port payload (env.upstream_open w.trace) ∷ w.trace;
  }

  -- The loop of `spawn_read_task`; the result says whether it still runs.
  unfoldable pub read_task : ℕ → List Item → World → Bool × World
  unfolding send_frame
  read_task src_port [] w = (true, w)
  read_task src_port (some (ok (data_frame host_id dst_port payload)) ∷ rest) w =
      read_task src_port rest (send_frame host_id src_port dst_port payload w)
  read_task src_port (_ ∷ rest) w = (false, w)

  -- The tasks of one local program, from its first frame on.
  unfoldable pub serve : List Item → World → World
  unfolding handle_new_stream read_task
  serve [] w = w
  serve (item ∷ rest) w =
      let (port, w') = handle_new_stream item w in
      elim port [ none ↦ w' | some src_port ↦ (read_task src_port rest w').1 ]

  unfoldable pub deliver_frame : Identifier → ℕ → ℕ → List ℕ → World → World
  deliver_frame host_id remote_port local_port payload w =
      elim (Map.get local_port w.state.connections) [
        | none ↦ w
        | some socket ↦
            let frame = data_frame host_id remote_port payload in
            record w {
              trace = locally_sent socket frame (env.sender_open socket w.trace) ∷ w.trace;
            }
      ]

  -- `open_ctl_socket`, with the programs that connect one after the other until `accept` fails with
  -- `failure`; `listener` is whether `UnixListener::bind` succeeds.
  unfoldable pub accept_all : List (List Item) → World → World
  unfolding serve
  accept_all [] w = w
  accept_all (program ∷ rest) w = accept_all rest (serve program w)

  unfoldable pub open_ctl_socket :
      Option ErrorKind → List (List Item) → ErrorKind → World → Result (Unit {0}) ErrorKind × World
  unfolding accept_all
  open_ctl_socket listener programs failure w = elim w.state.ctl_socket [
    | [] ↦ (err not_found, w)
    | _ ∷ _ ↦ elim listener [ some e ↦ (err e, w) | none ↦ (err failure, accept_all programs w) ]
  ]

-- `Drop`: `files` are the paths that exist, and `remove_file` is `fs::remove_file`, whose error is dropped.
unfoldable pub drop :
    (exists : List ℕ → List (List ℕ) → Bool) (remove_file : List ℕ → List (List ℕ) → List (List ℕ))
    → UnixState
    → List (List ℕ)
    → List (List ℕ)
drop exists remove_file state files =
    if exists state.ctl_socket files then remove_file state.ctl_socket files else files

unfoldable pub run :
    Env
    → Option ErrorKind
    → List (List Item)
    → ErrorKind
    → World
    → Result (Unit {0}) ErrorKind × World
unfolding open_ctl_socket
run env listener programs failure w = open_ctl_socket env listener programs failure w
