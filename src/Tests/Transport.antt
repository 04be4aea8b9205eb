-- ===== src/Tests/Transport.antt =====
-- The codec, the connections and the sockets of network/transport/.
use uip.Base.{take, drop, replicate, length, length-replicate, ◌≢◌, ◌%◌}
use uip.Transport.Codec.RoundTrip.{decode-encode_oversize}
use uip.Base.{ℕ, ◌≡◌, refl, List, [], ◌∷◌, ◌++◌, map, some, true, ok, All, arith}
use uip.Data.Identifier.{identifier_key}
use uip.Tests.Fixtures.{bytes, env, alice, bob, address, started, connected}
use uip.Transport.Codec.{Frame, ping, pong, data_frame, encode, decode}
use uip.Transport.Codec.Stream.{feed, flatten, encode_all, feed-encode_all}
use uip.Transport.Codec.Wire.{IsFrame}
use uip.Transport.Connection.Tasks.{frame, read_task, queued, write_task}
use uip.Transport.Connection.Tasks.Delivery.{deliveries, write_task-read_task}
use uip.Transport.Socket.{open_connection}
use uip.Transport.Socket.Registry.{open_connection_unchecked}
use uip.World.{World, Connection, tasks_spawned}

abbrev hello : Frame
hello = data_frame 80 4321 (104 ∷ 105 ∷ [])

abbrev frames : List Frame
frames = ping ∷ hello ∷ pong ∷ []

frames-IsFrame : All IsFrame frames
frames-IsFrame = (tt, ((omega arith, omega arith, omega arith), (tt, tt)))

-- The bytes of the frames, cut in the middle of the data frame.
abbrev chunks : List (List ℕ)
chunks = (1 ∷ 3 ∷ 0 ∷ 80 ∷ 16 ∷ []) ∷ (225 ∷ 0 ∷ 2 ∷ 104 ∷ []) ∷ (105 ∷ 2 ∷ []) ∷ []

chunks_lem : flatten chunks ≡ encode_all bytes frames []
unfolding encode_all encode
chunks_lem = refl

written : flatten chunks ≡ write_task bytes (map (λ f. queued f true) frames) []
unfolding write_task encode
written = refl

-- A payload one byte too long for its length field.
oversize : List ℕ
oversize = replicate 65536 7

oversize-length : length oversize ≡ 65536
unfolding oversize
oversize-length = length-replicate {A = ℕ} 65536 7

decode-encode_oversize_example :
    (decode bytes (encode bytes (data_frame 80 81 oversize) []).1 ≡ (
      ok (some (data_frame 80 81 (take (length oversize % 65536) oversize))),
      drop (length oversize % 65536) oversize,
    ))
    × (take (length oversize % 65536) oversize ≢ oversize)
decode-encode_oversize_example =
    decode-encode_oversize bytes 80 81 oversize (omega arith) (omega arith)
      (omega (arith, oversize-length))

hello_prefix : (encode bytes hello []).1 ≡ (3 ∷ 0 ∷ 80 ∷ []) ++ (16 ∷ 225 ∷ 0 ∷ 2 ∷ 104 ∷ 105 ∷ [])
unfolding encode
hello_prefix = refl

feed-encode_all_example : feed bytes [] chunks ≡ (frames, [])
feed-encode_all_example = feed-encode_all bytes frames chunks frames-IsFrame chunks_lem

write_task-read_task_example :
    (read_task env
      (λ o. true)
      (record { sink = 3 })
      bob
      (map frame (feed bytes [] chunks).0)
      []
      started).1
    ≡ deliveries bob frames []
write_task-read_task_example =
    write_task-read_task bytes env (λ o. true) (record { sink = 3 }) bob frames chunks started
      (λ o. refl) frames-IsFrame written

open_connection_unchecked_example :
    (c : Connection) × (w' : World) × (open_connection env 0 alice address connected ≡ (ok c, w'))
    × (w'.trace ≡ tasks_spawned c alice ∷ [])
open_connection_unchecked_example =
    open_connection_unchecked env 0 alice bob address connected refl refl refl refl
