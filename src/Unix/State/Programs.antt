-- ===== src/Unix/State/Programs.antt =====
-- unix/state.rs with all its tasks at once: the loop of `open_ctl_socket`, which awaits the first frame of
-- one program before it accepts the next, the read tasks of the programs that bound a port, and the
-- frames of the network half, interleaved in any order. A program is known by its channel.
pub mod Registered
use uip.Base.{ℕ, suc, ◌≡◌, List, [], ◌∷◌, Option, none, some, Bool, true, false, ok, err, ite, Elem}
use uip.Base.Map
use uip.Base.Map.{Map, eq?}
use uip.Data.Identifier.{Identifier}
use uip.Unix.Codec.{Frame, bind, data_frame, error}
use uip.Unix.State.{
  World, Env, Event, upstream_sent, locally_sent, Item, Sender, UnixState, port_key,
  handle_new_stream, read_task, deliver_frame, new,
}

-- What happens between the daemon and the programs: a program binds a port, sends a frame from its port, is
-- sent a frame that came for its port, or a frame came for a port with no program.
pub data Label : Type 0 where
  bound : (program : Sender) (port : ℕ) → Label
  sent : (program : Sender) → Identifier → (src_port dst_port : ℕ) → List ℕ → Label
  reached : (program : Sender) (port : ℕ) → Identifier → (remote_port : ℕ) → List ℕ → Label
  unbound : (port : ℕ) → Identifier → (remote_port : ℕ) → List ℕ → Label

-- The state of the daemon, whether the accept loop awaits a first frame, the read tasks with their ports,
-- and what has happened, latest first.
pub record System : Type 0 where
  pub world : World
  pub accepting : Bool
  pub readers : Map Sender ℕ
  pub log : List Label

unfoldable pub start : List ℕ → System
unfolding new
start ctl_socket = record {
  world = record { state = new ctl_socket; next_sender = 0; trace = [] };
  accepting = false;
  readers = [];
  log = [];
}

-- The accept loop goes on with the first item of the program's stream.
unfoldable pub opened : Item → System → System
unfolding handle_new_stream
opened item s =
    let (port, w) = handle_new_stream item s.world in
    elim port [
      | none ↦ record s { world = w; accepting = false }
      | some q ↦ record {
        world = w;
        accepting = false;
        readers = Map.insert s.world.next_sender q s.readers;
        log = bound s.world.next_sender q ∷ s.log;
      }
    ]

abbrev sent_label : Sender → ℕ → Item → List Label → List Label
sent_label t port (some (ok (data_frame host dst payload))) log = sent t host port dst payload ∷ log
sent_label t port _ log = log

module _ (env : Env) where
  -- A round of the read task of `t`.
  unfoldable pub read_round : Sender → ℕ → Item → System → System
  unfolding read_task
  read_round t port item s =
      let (running, w) = read_task env port (item ∷ []) s.world in
      record {
        world = w;
        accepting = s.accepting;
        readers = elim running [ true ↦ s.readers | false ↦ Map.remove t s.readers ];
        log = sent_label t port item s.log;
      }

  -- A message from the network half.
  unfoldable pub delivered : Identifier → ℕ → ℕ → List ℕ → System → System
  unfolding deliver_frame
  delivered host remote_port port payload s = record s {
    world = deliver_frame env host remote_port port payload s.world;
    log =
        elim (Map.get port s.world.state.connections) [
          | none ↦ unbound port host remote_port payload
          | some t ↦ reached t port host remote_port payload
        ]
        ∷ s.log;
  }

  pub data Step (s : System) : System → Type 0 where
    accepts : s.accepting ≡ false → Step s (record s { accepting = true })
    opens : (item : Item) → s.accepting ≡ true → Step s (opened item s)
    reads :
        (t : Sender) (port : ℕ) (item : Item)
        → Map.get t s.readers ≡ some port
        → Step s (read_round t port item s)
    delivers :
        (host : Identifier) (remote_port port : ℕ) (payload : List ℕ)
        → Step s (delivered host remote_port port payload s)

  pub data Reach (s : System) : System → Type 0 where
    initial : Reach s s
    next : {t u : System} → Reach s t → Step t u → Reach s u
