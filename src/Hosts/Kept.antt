-- ===== src/Hosts/Kept.antt =====
-- What each part of the two daemons has of what the part before it has.
use uip.Base.{ℕ, ◌≡◌, refl, sym, ap, ◌∙◌, subst, List, [], ◌∷◌, ◌++◌, append-nil, Bool, true, some}
use uip.Base.Map.{values}
use uip.Data.Identifier.{Identifier}
use uip.Hosts.{
  Content, passed_on, messages, offered, climbing, System, IsStart, Step, near_steps,
  near_network_steps, forwards, loses, link_steps, arrives, reads, far_network_steps, hands, drops,
  far_steps, Reach, initial, next,
}
use uip.Hosts.Far.{incoming-climbing, delivered-offered}
use uip.Hosts.Fronts.{
  Front, front_grows, front_next, read, read-append, messages-append, feed-Front,
}
use uip.Hosts.Near.{Step-passed_on}
use uip.Network.Peers.{send_frame, find_connection}
use uip.Network.Peers.Sending.{send_frame_registered}
use uip.Network.Quiet.{upstreams}
use uip.Protocol.{MessagePack}
use uip.Transport.Codec.{ByteBuf, Frame, data_frame}
use uip.Transport.Codec.Stream.{feed}
use uip.Transport.Connection.Link.{Mpsc, from_tls_stream, sent}
use uip.Transport.Connection.Link.Order.{
  IsOrdered, from_tls_stream-IsOrdered, sent-IsOrdered, Step-IsOrdered,
}
use uip.Unix.State
use uip.Unix.State.Programs
use uip.Unix.State.Programs.{start}
use uip.World
use uip.World.{World, Connection, Trace, frame_sent}
use mathlib.Core.List.{Sublistᴰ}
use mathlib.Core.List.Sublistᴰ

-- What one frame more adds to the messages.
read_snoc :
    (fs : List Frame) (m : Content) (ms : List Content)
    → read fs ≡ messages ms
    → read (fs ++ data_frame m.src_port m.dst_port m.payload ∷ []) ≡ messages (ms ++ m ∷ [])
read_snoc fs m ms e =
    read-append fs (data_frame m.src_port m.dst_port m.payload ∷ [])
    ∙ ap (λ x. x ++ messages (m ∷ [])) e
    ∙ sym (messages-append ms (m ∷ []))

one_less : (m : Content) (xs ys : List Content) → Sublistᴰ xs ys → Sublistᴰ xs (ys ++ m ∷ [])
one_less m xs ys h =
    subst (λ x. Sublistᴰ x (ys ++ m ∷ [])) (append-nil xs)
      (Sublistᴰ.append h (Sublistᴰ.nil-sublist (m ∷ [])))

-- The frame of an event.
same_frame :
    (c : Connection) (f g : Frame) (b : Bool) (t : Trace)
    → frame_sent c f true ∷ t ≡ frame_sent c g b ∷ t
    → f ≡ g
same_frame c f g b t e = cc

module _ (mpsc : Mpsc Frame) (bytes : ByteBuf) (pack : MessagePack)
    (near_local far_local : State.Env) (near_env far_env : World.Env) (near_id far_id : Identifier)
    (near_conn far_conn : Connection) where
  pub record IsKept (near_path far_path : List ℕ) (s : System mpsc) : Type 0 where
    pub near : Programs.Reach near_local (start near_path) s.near
    pub taken : Front s.taken (passed_on far_id s.near.world.trace)
    pub forwarded : Sublistᴰ s.forwarded s.taken
    pub accepted : read s.link.accepted ≡ messages s.forwarded
    pub ordered : IsOrdered mpsc bytes far_id s.link
    pub frames : Front s.frames (feed bytes [] s.chunks).0
    pub passed_up : climbing near_id (upstreams s.far_network.trace) ≡ read s.frames
    pub seen : Front s.seen (climbing near_id (upstreams s.far_network.trace))
    pub handed : Sublistᴰ s.handed s.seen
    pub arrived : offered near_id s.far.log ≡ s.handed
    pub far : Programs.Reach far_local (start far_path) s.far

  -- The frame that `send_frame` puts on the connection.
  offered_frame :
      (m : Content) (w : World) (f : Frame)
      → find_connection w.store far_id (values w.network.sockets) ≡ some near_conn
      → (send_frame near_env far_id m.src_port m.dst_port m.payload w).1.trace
        ≡ frame_sent near_conn f true ∷ w.trace
      → f ≡ data_frame m.src_port m.dst_port m.payload
  offered_frame m w f g q =
      same_frame near_conn f (data_frame m.src_port m.dst_port m.payload)
        (near_env.sink_open near_conn w.trace) w.trace
        (sym q
          ∙ ap (λ v. v.trace)
              (send_frame_registered near_env far_id m.src_port m.dst_port m.payload w near_conn g))

  start-IsKept :
      (near_path far_path : List ℕ) (s : System mpsc)
      → IsStart mpsc near_path far_path near_id s
      → IsKept near_path far_path s
  unfolding start from_tls_stream
  start-IsKept near_path far_path s h = record {
    near = rw h.near Programs.Reach.initial;
    taken = rw (h.taken) (passed_on far_id s.near.world.trace, refl);
    forwarded = rw (h.forwarded) (rw (h.taken) Sublistᴰ.slnil);
    accepted = ap (λ l. read l.accepted) h.link ∙ ap messages (sym h.forwarded);
    ordered = rw h.link (from_tls_stream-IsOrdered mpsc bytes far_id);
    frames = rw h.frames ((feed bytes [] s.chunks).0, refl);
    passed_up = h.far_network ∙ ap read (sym h.frames);
    seen = rw h.seen (climbing near_id (upstreams s.far_network.trace), refl);
    handed = rw h.handed (rw h.seen Sublistᴰ.slnil);
    arrived = ap (λ t. offered near_id t.log) h.far ∙ sym h.handed;
    far = rw h.far Programs.Reach.initial;
  }

  Step-IsKept :
      (near_path far_path : List ℕ) {s t : System mpsc}
      → Step mpsc bytes pack near_local far_local near_env far_env near_id far_id near_conn far_conn
          s t
      → IsKept near_path far_path s
      → IsKept near_path far_path t
  unfolding sent
  Step-IsKept near_path far_path {s} (near_steps t st) k = record {
    near = Programs.Reach.next k.near st;
    taken = front_grows s.taken _ _ k.taken (Step-passed_on far_id near_local st);
    forwarded = k.forwarded;
    accepted = k.accepted;
    ordered = k.ordered;
    frames = k.frames;
    passed_up = k.passed_up;
    seen = k.seen;
    handed = k.handed;
    arrived = k.arrived;
    far = k.far;
  }
  Step-IsKept near_path far_path {s} (near_network_steps w) k = record {
    near = k.near;
    taken = k.taken;
    forwarded = k.forwarded;
    accepted = k.accepted;
    ordered = k.ordered;
    frames = k.frames;
    passed_up = k.passed_up;
    seen = k.seen;
    handed = k.handed;
    arrived = k.arrived;
    far = k.far;
  }
  Step-IsKept near_path far_path {s} (forwards m rest f c e g q w se) k = record {
    near = k.near;
    taken = front_next m s.taken _ rest e;
    forwarded = Sublistᴰ.append k.forwarded (Sublistᴰ.refl _);
    accepted =
        ap (λ x. read (s.link.accepted ++ x ∷ [])) (offered_frame m s.near_network f g q)
        ∙ read_snoc s.link.accepted m s.forwarded k.accepted;
    ordered = sent-IsOrdered mpsc bytes far_id f c s.link se w k.ordered;
    frames = k.frames;
    passed_up = k.passed_up;
    seen = k.seen;
    handed = k.handed;
    arrived = k.arrived;
    far = k.far;
  }
  Step-IsKept near_path far_path {s} (loses m rest e) k = record {
    near = k.near;
    taken = front_next m s.taken _ rest e;
    forwarded = one_less m s.forwarded s.taken k.forwarded;
    accepted = k.accepted;
    ordered = k.ordered;
    frames = k.frames;
    passed_up = k.passed_up;
    seen = k.seen;
    handed = k.handed;
    arrived = k.arrived;
    far = k.far;
  }
  Step-IsKept near_path far_path {s} (link_steps l st e) k = record {
    near = k.near;
    taken = k.taken;
    forwarded = k.forwarded;
    accepted = e ∙ k.accepted;
    ordered = Step-IsOrdered mpsc bytes far_id st k.ordered;
    frames = k.frames;
    passed_up = k.passed_up;
    seen = k.seen;
    handed = k.handed;
    arrived = k.arrived;
    far = k.far;
  }
  Step-IsKept near_path far_path {s} (arrives chunk) k = record {
    near = k.near;
    taken = k.taken;
    forwarded = k.forwarded;
    accepted = k.accepted;
    ordered = k.ordered;
    frames = front_grows s.frames _ _ k.frames (feed-Front bytes s.chunks chunk);
    passed_up = k.passed_up;
    seen = k.seen;
    handed = k.handed;
    arrived = k.arrived;
    far = k.far;
  }
  Step-IsKept near_path far_path {s} (reads f rest e) k = record {
    near = k.near;
    taken = k.taken;
    forwarded = k.forwarded;
    accepted = k.accepted;
    ordered = k.ordered;
    frames = front_next f s.frames _ rest e;
    passed_up =
        incoming-climbing far_env pack far_conn near_id f s.far_network
        ∙ ap (λ x. x ++ read (f ∷ [])) k.passed_up
        ∙ sym (read-append s.frames (f ∷ []));
    seen =
        front_grows s.seen _ _ k.seen
          (read (f ∷ []), incoming-climbing far_env pack far_conn near_id f s.far_network);
    handed = k.handed;
    arrived = k.arrived;
    far = k.far;
  }
  Step-IsKept near_path far_path {s} (far_network_steps w e) k = record {
    near = k.near;
    taken = k.taken;
    forwarded = k.forwarded;
    accepted = k.accepted;
    ordered = k.ordered;
    frames = k.frames;
    passed_up = e ∙ k.passed_up;
    seen = subst (λ x. Front s.seen x) (sym e) k.seen;
    handed = k.handed;
    arrived = k.arrived;
    far = k.far;
  }
  Step-IsKept near_path far_path {s} (hands m rest e) k = record {
    near = k.near;
    taken = k.taken;
    forwarded = k.forwarded;
    accepted = k.accepted;
    ordered = k.ordered;
    frames = k.frames;
    passed_up = k.passed_up;
    seen = front_next m s.seen _ rest e;
    handed = Sublistᴰ.append k.handed (Sublistᴰ.refl _);
    arrived = delivered-offered far_local near_id m s.far ∙ ap (λ x. x ++ m ∷ []) k.arrived;
    far =
        Programs.Reach.next k.far (Programs.Step.delivers near_id m.src_port m.dst_port m.payload);
  }
  Step-IsKept near_path far_path {s} (drops m rest e) k = record {
    near = k.near;
    taken = k.taken;
    forwarded = k.forwarded;
    accepted = k.accepted;
    ordered = k.ordered;
    frames = k.frames;
    passed_up = k.passed_up;
    seen = front_next m s.seen _ rest e;
    handed = one_less m s.handed s.seen k.handed;
    arrived = k.arrived;
    far = k.far;
  }
  Step-IsKept near_path far_path {s} (far_steps t st e) k = record {
    near = k.near;
    taken = k.taken;
    forwarded = k.forwarded;
    accepted = k.accepted;
    ordered = k.ordered;
    frames = k.frames;
    passed_up = k.passed_up;
    seen = k.seen;
    handed = k.handed;
    arrived = e ∙ k.arrived;
    far = Programs.Reach.next k.far st;
  }

  pub Reach-IsKept :
      (near_path far_path : List ℕ) {s t : System mpsc}
      → Reach mpsc bytes pack near_local far_local near_env far_env near_id far_id near_conn
          far_conn s t
      → IsStart mpsc near_path far_path near_id s
      → IsKept near_path far_path t
  Reach-IsKept near_path far_path {s} initial h = start-IsKept near_path far_path s h
  Reach-IsKept near_path far_path (next r st) h =
      Step-IsKept near_path far_path st (Reach-IsKept near_path far_path r h)
