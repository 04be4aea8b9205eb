-- ===== src/Unix/State/Ports.antt =====
-- Which program gets which frame.
use uip.Base.{ℕ, ◌≡◌, refl, ap, ◌∙◌, List, [], ◌∷◌, Option, none, some, ok, err, ite}
use uip.Base.Map
use uip.Base.Map.{eq?, get-insert, get-insert_self}
use uip.Data.Identifier.{Identifier}
use uip.Unix.Codec.{bind, data_frame, error}
use uip.Unix.State.{
  World, Env, Event, upstream_sent, locally_sent, Item, port_key, spawn_write_task, read_task,
  serve,
}

-- A frame for the network half.
pub record Outgoing : Type 0 where
  pub host_id : Identifier
  pub src_port : ℕ
  pub dst_port : ℕ
  pub payload : List ℕ

-- What was sent to the network half, accepted or not, latest first.
abbrev pub sent : List Event → List Outgoing
sent [] = []
sent (upstream_sent h s d p accepted ∷ t) =
    record { host_id = h; src_port = s; dst_port = d; payload = p } ∷ sent t
sent (locally_sent s f accepted ∷ t) = sent t

-- The data frames in front of the first other item, as frames from a port, latest first before `out`.
abbrev pub requested : ℕ → List Item → List Outgoing → List Outgoing
requested port [] out = out
requested port (some (ok (data_frame h d p)) ∷ rest) out =
    requested port rest (record { host_id = h; src_port = port; dst_port = d; payload = p } ∷ out)
requested port (_ ∷ rest) out = out

module _ (env : Env) where
  -- The read task of a program sends exactly the data frames in front of the first other item to the
  -- network half, in their order and from the port that the program bound.
  pub read_task-requested :
      (port : ℕ) (items : List Item) (w : World)
      → sent (read_task env port items w).1.trace ≡ requested port items (sent w.trace)
  unfolding read_task
  read_task-requested port [] w = refl
  read_task-requested port (some (ok (data_frame h d p)) ∷ rest) w = read_task-requested port rest _
  read_task-requested port (some (ok (bind q)) ∷ rest) w = refl
  read_task-requested port (some (ok (error c)) ∷ rest) w = refl
  read_task-requested port (some (err e) ∷ rest) w = refl
  read_task-requested port (none ∷ rest) w = refl

  read_task-state :
      (port : ℕ) (items : List Item) (w : World) → (read_task env port items w).1.state ≡ w.state
  unfolding read_task
  read_task-state port [] w = refl
  read_task-state port (some (ok (data_frame h d p)) ∷ rest) w = read_task-state port rest _
  read_task-state port (some (ok (bind q)) ∷ rest) w = refl
  read_task-state port (some (ok (error c)) ∷ rest) w = refl
  read_task-state port (some (err e) ∷ rest) w = refl
  read_task-state port (none ∷ rest) w = refl

  -- The port that a stream binds with its first frame.
  abbrev pub bound_port : List Item → Option ℕ
  bound_port (some (ok (bind p)) ∷ rest) = some p
  bound_port _ = none

  -- A program whose first frame is no `Bind` changes nothing, whatever it sends.
  pub serve_unbound :
      (items : List Item) (w : World) → bound_port items ≡ none → serve env items w ≡ w
  unfolding serve
  serve_unbound [] w e = refl
  serve_unbound (none ∷ rest) w e = refl
  serve_unbound (some (err k) ∷ rest) w e = refl
  serve_unbound (some (ok (bind p)) ∷ rest) w e = cc
  serve_unbound (some (ok (data_frame h d p)) ∷ rest) w e = refl
  serve_unbound (some (ok (error c)) ∷ rest) w e = refl

  -- A program that binds a port has its data frames sent on from that port, in order, up to the first
  -- other item; it takes the port over from any program before it, and leaves the other ports.
  pub serve_bound :
      (p q : ℕ) (rest : List Item) (w : World)
      → let w' = serve env (some (ok (bind p)) ∷ rest) w in
        (sent w'.trace ≡ requested p rest (sent w.trace))
        × (Map.get q w'.state.connections
            ≡ ite (eq? p q) (some w.next_sender) (Map.get q w.state.connections))
  unfolding serve
  serve_bound p q rest w = (
    read_task-requested p rest (spawn_write_task p w),
    ap (λ s. Map.get q s.connections) (read_task-state p rest (spawn_write_task p w))
        ∙ get-insert p q w.next_sender w.state.connections,
  )
