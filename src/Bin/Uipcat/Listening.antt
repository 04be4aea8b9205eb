-- ===== src/Bin/Uipcat/Listening.antt =====
-- A client that listens, from the message that comes for its port to the line that it shows.
use uip.Base.{
  ℕ, ◌≡◌, ◌≢◌, refl, sym, ap, ◌∙◌, List, [], ◌∷◌, ◌++◌, append-nil, append_assoc, some, Bool, true,
  false, ok, ◌==◌, if◌then◌else◌, arith, Option-cases, Bool-cases, inl, inr, ℕ_discrete,
}
use uip.Base.Map
use uip.Base.Map.{eq?, get-insert_self, get-insert_inv}
use uip.Bin.Uipcat.{reading, Shown, listen_request, listen}
use uip.Bin.Uipd.{Message, to_local}
use uip.Unix.Codec.{Frame, FramePack, data_frame}
use uip.Unix.State.{
  World, Env, Event, upstream_sent, locally_sent, Sender, port_key, serve, deliver_frame,
}

-- The frames that the write task of a program has got, oldest first.
unfoldable pub received : Sender → List Event → List Frame
received n [] = []
received n (upstream_sent host src dst payload accepted ∷ t) = received n t
received n (locally_sent s f false ∷ t) = received n t
received n (locally_sent s f true ∷ t) =
    let rest = received n t in if s == n then rest ++ f ∷ [] else rest

-- What is for a port, as the daemon sends it and as the client shows it.
abbrev pub frames : ℕ → List Message → List Frame
frames port [] = []
frames port (m ∷ ms) =
    let rest = frames port ms in
    if m.dst_port == port then data_frame m.host_id m.src_port m.payload ∷ rest else rest

abbrev pub shown : ℕ → List Message → List Shown
shown port [] = []
shown port (m ∷ ms) =
    let rest = shown port ms in
    if m.dst_port == port
    then record { host_id = m.host_id; remote_port = m.src_port; payload = m.payload } ∷ rest
    else rest

-- Each read gives the bytes of one frame.
abbrev pub Reads : FramePack → List Frame → List (List ℕ) → Type 0
Reads pack [] [] = Unit {0}
Reads pack (f ∷ fs) (buf ∷ bufs) = (pack.serialize f ≡ ok buf) × Reads pack fs bufs
Reads pack _ _ = ⊥

-- The program `n` is bound to the port, and to no other.
record IsBound (n : Sender) (port : ℕ) (w : World) : Type 0 where
  pub own : Map.get port w.state.connections ≡ some n
  pub other : (q : ℕ) → Map.get q w.state.connections ≡ some n → q ≡ port

module _ (env : Env) (n : Sender) (port : ℕ)
    (takes : (t : List Event) → env.sender_open n t ≡ true) where
  received_more :
      (s : Sender) (f : Frame) (accepted : Bool) (t : List Event)
      → received n (locally_sent s f accepted ∷ t) ≡ (
          if accepted
          then (if s == n then received n t ++ f ∷ [] else received n t)
          else received n t)
  unfolding received
  received_more s f true t = refl
  received_more s f false t = refl

  received-deliver_frame :
      (m : Message) (w : World)
      → IsBound n port w
      → received n (deliver_frame env m.host_id m.src_port m.dst_port m.payload w).trace
        ≡ received n w.trace ++ frames port (m ∷ [])
  unfolding deliver_frame
  received-deliver_frame m w b = elim (Option-cases (Map.get m.dst_port w.state.connections)) [
    | inl e ↦
        let d : m.dst_port ≢ port = λ p. cc (ap (λ q. Map.get q w.state.connections) p, e, b.own) in
        rw (e, deliver_frame) (ground (arith, d, append-nil (received n w.trace)))
    | inr (s, e) ↦
        let frame = data_frame m.host_id m.src_port m.payload in
        rw (e, deliver_frame)
          (received_more s frame (env.sender_open s w.trace) w.trace ∙ elim (ℕ_discrete s n) [
            | yes p ↦
                let q : m.dst_port ≡ port = b.other m.dst_port (e ∙ ap (λ x. some x) p) in
                let o : env.sender_open s w.trace ≡ true =
                  ap (λ x. env.sender_open x w.trace) p ∙ takes w.trace in
                ground (arith, q, o, p)
            | no d ↦
                let q : m.dst_port ≢ port =
                  λ p. d (let g = ap (λ q. Map.get q w.state.connections) p in cc (g, e, b.own)) in
                ground (arith, d, q, append-nil (received n w.trace))
          ])
  ]

  deliver_frame-IsBound :
      (m : Message) (w : World)
      → IsBound n port w
      → IsBound n port (deliver_frame env m.host_id m.src_port m.dst_port m.payload w)
  unfolding deliver_frame
  deliver_frame-IsBound m w b = elim (Option-cases (Map.get m.dst_port w.state.connections)) [
    | inl e ↦ rw (e, deliver_frame) b
    | inr (s, e) ↦ rw (e, deliver_frame) (record { own = b.own; other = b.other })
  ]

  received-to_local :
      (ms : List Message) (w : World)
      → IsBound n port w
      → received n (to_local env ms w).trace ≡ received n w.trace ++ frames port ms
  unfolding to_local
  received-to_local [] w b = sym (append-nil (received n w.trace))
  received-to_local (m ∷ ms) w b =
      received-to_local ms (deliver_frame env m.host_id m.src_port m.dst_port m.payload w)
        (deliver_frame-IsBound m w b)
      ∙ ap (λ x. x ++ frames port ms) (received-deliver_frame m w b)
      ∙ append_assoc (received n w.trace) (frames port (m ∷ [])) (frames port ms)
      ∙ ap (λ x. received n w.trace ++ x) (ground arith)

listen-shown :
    (pack : FramePack) (port : ℕ) (ms : List Message) (bufs : List (List ℕ))
    → Reads pack (frames port ms) bufs
    → listen pack bufs ≡ (reading, shown port ms)
unfolding listen
listen-shown pack port [] [] r = refl
listen-shown pack port [] (buf ∷ bufs) r = absurd r
listen-shown pack port (m ∷ ms) bufs r = elim (Bool-cases (m.dst_port == port)) [
  | inl t ↦ rw t (one (listen-shown pack port ms) bufs (rw t at r))
  | inr f ↦ rw f (listen-shown pack port ms bufs (rw f at r))
]
  where
    one :
        ((rest : List (List ℕ))
          → Reads pack (frames port ms) rest
          → listen pack rest ≡ (reading, shown port ms))
        → (bufs : List (List ℕ))
        → Reads pack (data_frame m.host_id m.src_port m.payload ∷ frames port ms) bufs
        → listen pack bufs ≡ (
          reading,
          record { host_id = m.host_id; remote_port = m.src_port; payload = m.payload }
              ∷ shown port ms,
        )
    one k [] r = absurd r
    one k (buf ∷ bufs) r =
        let frame = data_frame m.host_id m.src_port m.payload in
        let read : pack.from_slice buf ≡ ok frame =
          ap pack.from_slice (sym (append-nil buf)) ∙ pack.from_slice-serialize frame buf [] r.0 in
        rw (read, listen) (rw (k bufs r.1, listen) refl)

-- A client binds a port that no program has, and then frames for any ports come from the network half. If
-- its channel takes them and each read gives one frame, it shows exactly the messages for its port, with
-- who sent them from which port, in order.
pub listen-to_local :
    (env : Env) (pack : FramePack) (port : ℕ) (ms : List Message) (bufs : List (List ℕ)) (w : World)
    → ((t : List Event) → env.sender_open w.next_sender t ≡ true)
    → ((q : ℕ) → Map.get q w.state.connections ≢ some w.next_sender)
    → received w.next_sender w.trace ≡ []
    → Reads pack
        (received w.next_sender
          (to_local env ms (serve env (some (ok (listen_request port)) ∷ []) w)).trace)
        bufs
    → listen pack bufs ≡ (reading, shown port ms)
unfolding listen_request serve
listen-to_local env pack port ms bufs w takes fresh none_yet r =
    let w' = serve env (some (ok (listen_request port)) ∷ []) w in
    let bound : IsBound w.next_sender port w' = record {
      own = get-insert_self port w.next_sender w.state.connections;
      other = λ q e.
          elim (get-insert_inv port q w.next_sender w.next_sender w.state.connections e) [
            | inl (p, _) ↦ sym p
            | inr g ↦ absurd (fresh q g)
          ];
    } in
    let all = received-to_local env w.next_sender port takes ms w' bound in
    listen-shown pack port ms bufs (rw (all ∙ ap (λ x. x ++ frames port ms) none_yet) at r)
