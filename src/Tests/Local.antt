-- ===== src/Tests/Local.antt =====
-- The control socket of unix/ and its clients.
use uip.Base.{ℕ, ◌≢◌, arith, ◌≡◌, refl, List, [], ◌∷◌, ◌++◌, none, some, true, ok}
use uip.Base.Map
use uip.Bin.Uipcat.{line, connect, listen, listen_request, reading}
use uip.Bin.Uipcat.Listening.{Reads, received, shown, listen-to_local}
use uip.Bin.Uipd.{Message, to_local}
use uip.Data.Identifier.{Identifier}
use uip.Bin.Uipcat.Sending.{items, serve-connect}
use uip.Tests.Fixtures.{bytes, frame_pack, bob}
use uip.Unix.Codec.{bind, decode, encode}
use uip.Unix.Codec.RoundTrip.{decode-encode_frame}
use uip.Unix.State.{World, Env, Item, port_key, serve}

abbrev env : Env
env = record { upstream_open = λ t. true; sender_open = λ s t. true }

abbrev w : World
w = record {
  state = record { ctl_socket = []; connections = (80, 0) ∷ [] };
  next_sender = 1;
  trace = [];
}

decode-encode_frame_example :
    decode frame_pack bytes ((encode frame_pack bytes (bind 80) []).1 ++ 9 ∷ [])
    ≡ (ok (some (bind 80)), 9 ∷ [])
decode-encode_frame_example =
    decode-encode_frame frame_pack bytes (bind 80) 0 (80 ∷ []) (9 ∷ []) refl

serve-connect_example : serve env (items (connect bob 90 (line (104 ∷ 105 ∷ []) ∷ []))) w ≡ w
serve-connect_example = serve-connect env bob 90 (line (104 ∷ 105 ∷ []) ∷ []) w

abbrev tiny : Identifier
tiny = record { bytes = 9 ∷ [] }

-- A message for the port that is bound, and one for another.
abbrev messages : List Message
messages =
    record { host_id = tiny; src_port = 5; dst_port = 81; payload = 1 ∷ [] }
    ∷ record { host_id = tiny; src_port = 5; dst_port = 80; payload = 2 ∷ [] }
    ∷ []

abbrev listening : World
listening = to_local env messages (serve env (some (ok (listen_request 81)) ∷ []) w)

no_such : (q : ℕ) → Map.get q w.state.connections ≢ some w.next_sender
unfolding Map.get
no_such q e = ground arith

one_read : Reads frame_pack (received 1 listening.trace) ((3 ∷ 9 ∷ 5 ∷ 1 ∷ []) ∷ [])
unfolding to_local serve uip.Unix.State.deliver_frame uip.Unix.State.handle_new_stream
    uip.Unix.State.spawn_write_task uip.Unix.State.read_task listen_request Map.insert Map.get
    received uip.Base.ℕ_discrete
one_read = (refl, tt)

listen-to_local_example :
    listen frame_pack ((3 ∷ 9 ∷ 5 ∷ 1 ∷ []) ∷ []) ≡ (reading, shown 81 messages)
unfolding received
listen-to_local_example =
    listen-to_local env frame_pack 81 messages ((3 ∷ 9 ∷ 5 ∷ 1 ∷ []) ∷ []) w (λ t. refl) no_such
      refl one_read
