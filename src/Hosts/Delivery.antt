-- ===== src/Hosts/Delivery.antt =====
-- From a program of one host to a program of the other, through both daemons.
use uip.Base.{ℕ, ◌≡◌, sym, ap, ◌∙◌, subst, List, [], ◌++◌, All, arith, Elem, length}
use uip.Data.Identifier.{Identifier}
use uip.Hosts.{Content, passed_on, messages, received, offered, climbing, System, IsStart, Reach}
use uip.Hosts.Far.{received-offered}
use uip.Hosts.Fronts.{
  Front, Front-Sublist, Elem-Sublist, read, Front-read, messages-Sublist, messages_part,
  read-Sublist, All-Sublist,
}
use uip.Hosts.Kept.{Reach-IsKept}
use uip.Hosts.Near.{Sent, passed_on-Sent}
use uip.Network.Quiet.{upstreams}
use uip.Protocol.{MessagePack}
use uip.Transport.Codec.{ByteBuf, Frame}
use uip.Transport.Codec.Stream.{feed, flatten, encode_all, feed-encode_all, drain-front}
use uip.Transport.Codec.Stream.Chunks.{feed-flatten}
use uip.Transport.Codec.Wire.{IsFrame}
use uip.Transport.Connection.Link.{Mpsc}
use uip.Unix.State
use uip.Unix.State.Programs.Registered.{AllAllowed, events, Reach-AllAllowed}
use uip.World
use uip.World.{World, Connection, Trace, frame_sent}
use mathlib.Core.List.{Sublistᴰ}
use mathlib.Core.List.Sublistᴰ

module _ (mpsc : Mpsc Frame) (bytes : ByteBuf) (pack : MessagePack)
    (near_local far_local : State.Env) (near_env far_env : World.Env) (near_id far_id : Identifier)
    (near_conn far_conn : Connection) where
  -- From the start of two daemons with one connection between them, whatever the programs, the tasks and the
  -- handlers do. If the bytes that were read are a front part of those of written frames in their order, of
  -- which some may have been lost, and all frames have u16 ports and payload lengths, then: what is put into
  -- the channels of the one host's programs as coming from the other is, in order, a part of what the
  -- programs there gave for this host, without what goes from port 0 to port 0; a program sent each of these
  -- messages from the port that it had bound; and the local half sent exactly what its log says, which gives
  -- each message to the program that bound the port last.
  pub Reach-received :
      (near_path far_path : List ℕ) (s t : System mpsc) (fs : List Frame) (rest : List ℕ)
      → IsStart mpsc near_path far_path near_id s
      → Reach mpsc bytes pack near_local far_local near_env far_env near_id far_id near_conn
          far_conn s t
      → All IsFrame t.link.written
      → Sublistᴰ fs t.link.written
      → flatten t.chunks ++ rest ≡ encode_all bytes fs []
      → Sublistᴰ (received near_id t.far.log) (messages (passed_on far_id t.near.world.trace))
        × ((m : Content) → Elem m (received near_id t.far.log) → Sent far_id m t.near.log)
        × AllAllowed t.far.log
        × (t.far.world.trace ≡ events far_local t.far.log)
  Reach-received near_path far_path s t fs rest h r w lost e =
      let k =
        Reach-IsKept mpsc bytes pack near_local far_local near_env far_env near_id far_id near_conn
          far_conn near_path far_path r h in
      let (todo, p) =
        drain-front bytes fs (length (flatten t.chunks)) (flatten t.chunks) rest
          (All-Sublist IsFrame lost w) e (omega arith) in
      let front : Front (feed bytes [] t.chunks).0 fs =
        (todo, p ∙ ap (λ q. q.0 ++ todo) (sym (feed-flatten bytes t.chunks))) in
      let accepted : Front t.link.written t.link.accepted = (k.ordered.rest, k.ordered.parts) in
      let written = Front-Sublist _ _ (Front-read _ _ accepted) in
      let read_part = Sublistᴰ.trans (Front-Sublist _ _ (Front-read _ _ k.frames)) (
        Sublistᴰ.trans (Front-Sublist _ _ (Front-read _ _ front))
          (Sublistᴰ.trans (read-Sublist _ _ lost) written)) in
      let up = Sublistᴰ.trans k.handed (Front-Sublist _ _ k.seen) in
      let got = Sublistᴰ.trans (received-offered near_id t.far.log) (
        subst (λ x. Sublistᴰ x (climbing near_id (upstreams t.far_network.trace))) (sym k.arrived)
          up) in
      let down =
        Sublistᴰ.trans got
          (subst (λ x. Sublistᴰ x (read t.link.accepted)) (sym k.passed_up) read_part) in
      let all =
        Sublistᴰ.trans (subst (λ x. Sublistᴰ (received near_id t.far.log) x) k.accepted down)
          (messages-Sublist _ _ (Sublistᴰ.trans k.forwarded (Front-Sublist _ _ k.taken))) in
      let (a, c) = Reach-AllAllowed near_local near_path t.near k.near in
      let (b, d) = Reach-AllAllowed far_local far_path t.far k.far in
      (
        all,
        λ m i. passed_on-Sent far_id near_local t.near.log m a (
            subst (λ x. Elem m (passed_on far_id x)) c
              (Elem-Sublist (messages_part _) (Elem-Sublist all i))),
        b,
        d,
      )

  -- From the start of two daemons with one connection between them: once the network half has put all that
  -- the programs of the one host gave for the other onto the connection, all of it is written, its bytes
  -- have arrived, all with u16 ports and payload lengths, the frames have been read and what came of them
  -- has been handed to the local half of the other host, then that half has been given exactly these
  -- messages, in order, without what goes from port 0 to port 0; it sent exactly what its log says, which
  -- gives each message to the program that bound the port last, or to none if there is none.
  pub Reach-offered :
      (near_path far_path : List ℕ) (s t : System mpsc)
      → IsStart mpsc near_path far_path near_id s
      → Reach mpsc bytes pack near_local far_local near_env far_env near_id far_id near_conn
          far_conn s t
      → All IsFrame t.link.accepted
      → t.forwarded ≡ passed_on far_id t.near.world.trace
      → t.link.written ≡ t.link.accepted
      → flatten t.chunks ≡ t.link.stream
      → t.frames ≡ (feed bytes [] t.chunks).0
      → t.handed ≡ climbing near_id (upstreams t.far_network.trace)
      → (offered near_id t.far.log ≡ messages (passed_on far_id t.near.world.trace))
        × AllAllowed t.far.log
        × (t.far.world.trace ≡ events far_local t.far.log)
  Reach-offered near_path far_path s t h r w f all_written arrived all_read all_handed =
      let k =
        Reach-IsKept mpsc bytes pack near_local far_local near_env far_env near_id far_id near_conn
          far_conn near_path far_path r h in
      let bytes_read =
        feed-encode_all bytes t.link.accepted t.chunks w
          (arrived ∙ k.ordered.stream ∙ ap (λ fs. encode_all bytes fs []) all_written) in
      let (b, d) = Reach-AllAllowed far_local far_path t.far k.far in
      (
        k.arrived
            ∙ all_handed
            ∙ k.passed_up
            ∙ ap read all_read
            ∙ ap (λ p. read p.0) bytes_read
            ∙ k.accepted
            ∙ ap messages f,
        b,
        d,
      )
