-- ===== src/Hosts/Far.antt =====
-- The receiving daemon: what its network half makes of a frame, and its local half of a message.
use uip.Base.{
  ◌≡◌, refl, sym, ap, ◌∙◌, List, [], ◌∷◌, ◌++◌, append-nil, Option-cases, Bool-cases, inl, inr,
  if_pos, if_neg, subst, ◌==◌, ◌&&◌,
}
use uip.Base.Map
use uip.Base.Map.{eq?}
use uip.Data.Identifier.{Identifier, identifier_key}
use uip.Hosts.{Content, contents, messages, received, offered, climbing, hand_on, incoming}
use uip.Network.Peers.Trust.{deliver_frame-upstreams}
use uip.Network.Quiet.{upstreams}
use uip.Protocol.{MessagePack}
use uip.Transport.Codec.{Frame, ping, pong, data_frame}
use uip.Transport.Connection.{send_frame, send}
use uip.Transport.Connection.Tasks.{read_task}
use uip.Unix.State.{Sender, port_key}
use uip.Unix.State
use uip.Unix.State.Programs.{System, Label, delivered, reached, unbound, bound, sent}
use uip.World
use uip.World.{World, Connection}
use mathlib.Core.List.{Sublistᴰ}
use mathlib.Core.List.Sublistᴰ

-- A frame adds the message that it holds to what the network half sends to the local half.
pub incoming-climbing :
    (env : World.Env) (pack : MessagePack) (conn : Connection) (host : Identifier) (f : Frame)
    (w : World)
    → climbing host (upstreams (incoming env pack conn host f w).trace)
      ≡ climbing host (upstreams w.trace) ++ messages (contents (f ∷ []))
unfolding incoming hand_on read_task send_frame send
incoming-climbing env pack conn host ping w = sym (append-nil (climbing host (upstreams w.trace)))
incoming-climbing env pack conn host pong w = sym (append-nil (climbing host (upstreams w.trace)))
incoming-climbing env pack conn host (data_frame s d p) w =
    ap (climbing host) (deliver_frame-upstreams env pack host s d p w)
    ∙ elim (Bool-cases (s == 0 && d == 0)) [
      | inl e ↦ rw e (sym (append-nil (climbing host (upstreams w.trace))))
      | inr e ↦ rw (e, if_pos (eq? host host) refl) refl
    ]

pub delivered-offered :
    (env : State.Env) (host : Identifier) (m : Content) (s : System)
    → offered host (delivered env host m.src_port m.dst_port m.payload s).log
      ≡ offered host s.log ++ m ∷ []
unfolding delivered
delivered-offered env host m s =
    elim (Option-cases (Map.get m.dst_port s.world.state.connections)) [
      | inl e ↦ rw (e, if_pos (eq? host host) refl) refl
      | inr (t, e) ↦ rw (e, if_pos (eq? host host) refl) refl
    ]

one_less : (c : Content) (xs ys : List Content) → Sublistᴰ xs ys → Sublistᴰ xs (ys ++ c ∷ [])
one_less c xs ys h =
    subst (λ x. Sublistᴰ x (ys ++ c ∷ [])) (append-nil xs)
      (Sublistᴰ.append h (Sublistᴰ.nil-sublist (c ∷ [])))

pub received-offered :
    (host : Identifier) (log : List Label) → Sublistᴰ (received host log) (offered host log)
received-offered host [] = Sublistᴰ.slnil
received-offered host (bound t q ∷ log) = received-offered host log
received-offered host (sent t id q d p ∷ log) = received-offered host log
received-offered host (reached t q id p b ∷ log) = elim (eq? id host) [
  | yes e ↦
      rw (if_pos _ e)
        (rw (if_pos _ e) (Sublistᴰ.append (received-offered host log) (Sublistᴰ.refl _)))
  | no n ↦ rw (if_neg _ n) (rw (if_neg _ n) (received-offered host log))
]
received-offered host (unbound q id p b ∷ log) = elim (eq? id host) [
  | yes e ↦ rw (if_pos _ e) (one_less _ _ _ (received-offered host log))
  | no n ↦ rw (if_neg _ n) (received-offered host log)
]
