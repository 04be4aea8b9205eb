-- ===== src/Transport/Connection/Link/Order.antt =====
-- However the tasks interleave, the frames go through the connection in order, none twice and none made up.
use uip.Base.{
  ℕ, ◌≡◌, refl, sym, ap, ◌∙◌, List, [], ◌∷◌, ◌++◌, append_assoc, some, Bool, true, false, All,
}
use uip.Data.Identifier.{Identifier}
use uip.Transport.Codec.{ByteBuf, Frame, ping, pong, data_frame, encode}
use uip.Transport.Codec.Stream.{encode_all, feed, flatten, feed-encode_all}
use uip.Transport.Codec.Wire.{IsFrame}
use uip.Transport.Connection.Link.{
  Mpsc, Link, from_tls_stream, sent, read_data, read_pong, read_ping, stop_reading, write_frame,
  Step, sends, pings, reads_data, reads_pong, reads_ping, reads_ping_late, stops_reading, writes,
  stops_writing, stops_pinging, Reach, initial, next,
}
use uip.Transport.Connection.Tasks.{Delivered}

encode_all-append :
    (bytes : ByteBuf) (fs : List Frame) (f : Frame) (dst : List ℕ)
    → encode_all bytes (fs ++ f ∷ []) dst ≡ (encode bytes f (encode_all bytes fs dst)).1
unfolding encode_all
encode_all-append bytes [] f dst = refl
encode_all-append bytes (g ∷ fs) f dst = encode_all-append bytes fs f (encode bytes g dst).1

module _ (mpsc : Mpsc Frame) (bytes : ByteBuf) (id : Identifier) where
  open mpsc use {Channel, contents, contents-channel, contents-send, contents-recv}

  pub record IsOrdered (l : Link mpsc) : Type 0 where
    -- the frames that were accepted and not written
    pub rest : List Frame
    pub parts : l.accepted ≡ l.written ++ rest
    pub waiting : l.writing ≡ true → rest ≡ contents l.sink
    pub stream : l.stream ≡ encode_all bytes l.written []

  pub from_tls_stream-IsOrdered : IsOrdered (from_tls_stream mpsc)
  unfolding from_tls_stream encode_all
  from_tls_stream-IsOrdered = record {
    rest = [];
    parts = refl;
    waiting = λ _. sym (contents-channel 10);
    stream = refl;
  }

  pub sent-IsOrdered :
      (f : Frame) (c : Channel) (l : Link mpsc)
      → mpsc.send f l.sink ≡ some c
      → l.writing ≡ true
      → IsOrdered l
      → IsOrdered (sent mpsc f c l)
  unfolding sent
  sent-IsOrdered f c l e w o = record {
    rest = o.rest ++ f ∷ [];
    parts = ap (λ x. x ++ f ∷ []) o.parts ∙ append_assoc l.written o.rest (f ∷ []);
    waiting = λ _. ap (λ x. x ++ f ∷ []) (o.waiting w) ∙ sym (contents-send f l.sink c e);
    stream = o.stream;
  }

  write_frame-IsOrdered :
      (f : Frame) (c : Channel) (accepted : Bool) (l : Link mpsc)
      → mpsc.recv l.sink ≡ some (f, c)
      → l.writing ≡ true
      → IsOrdered l
      → IsOrdered (write_frame mpsc bytes f c accepted l)
  unfolding write_frame
  write_frame-IsOrdered f c true l e w o =
      let r : o.rest ≡ f ∷ contents c = o.waiting w ∙ contents-recv f l.sink c e in
      record {
        rest = contents c;
        parts =
            o.parts
            ∙ ap (λ x. l.written ++ x) r
            ∙ sym (append_assoc l.written (f ∷ []) (contents c));
        waiting = λ _. refl;
        stream =
            ap (λ x. (encode bytes f x).1) o.stream ∙ sym (encode_all-append bytes l.written f []);
      }
  write_frame-IsOrdered f c false l e w o = record {
    rest = o.rest;
    parts = o.parts;
    waiting = λ n. cc;
    stream = o.stream;
  }

  -- What the read task does but for its answers.
  read-IsOrdered :
      (l : Link mpsc) (f : Frame) (out : List Delivered) (reading : Bool)
      → IsOrdered l
      → IsOrdered (record l { reading = reading; out = out; received = f ∷ l.received })
  read-IsOrdered l f out reading o = record {
    rest = o.rest;
    parts = o.parts;
    waiting = o.waiting;
    stream = o.stream;
  }

  stopped-IsOrdered :
      (l : Link mpsc) (r w p : Bool)
      → (w ≡ true → l.writing ≡ true)
      → IsOrdered l
      → IsOrdered (record l { reading = r; writing = w; pinging = p })
  stopped-IsOrdered l r w p h o = record {
    rest = o.rest;
    parts = o.parts;
    waiting = λ e. o.waiting (h e);
    stream = o.stream;
  }

  pub Step-IsOrdered : {l m : Link mpsc} → Step mpsc bytes id l m → IsOrdered l → IsOrdered m
  unfolding read_data read_pong read_ping stop_reading
  Step-IsOrdered {l} (sends f c w e) o = sent-IsOrdered f c l e w o
  Step-IsOrdered {l} (pings c p w e) o = sent-IsOrdered ping c l e w o
  Step-IsOrdered {l} (reads_data s d p true r) o =
      read-IsOrdered l (data_frame s d p)
        (record { host_id = id; src_port = s; dst_port = d; payload = p } ∷ l.out) l.reading o
  Step-IsOrdered {l} (reads_data s d p false r) o =
      read-IsOrdered l (data_frame s d p) l.out false o
  Step-IsOrdered {l} (reads_pong r) o = read-IsOrdered l pong l.out l.reading o
  Step-IsOrdered {l} (reads_ping c r w e) o =
      sent-IsOrdered pong c (record l { received = ping ∷ l.received }) e w
        (read-IsOrdered l ping l.out l.reading o)
  Step-IsOrdered {l} (reads_ping_late r w) o = read-IsOrdered l ping l.out l.reading o
  Step-IsOrdered {l} (stops_reading r) o = stopped-IsOrdered l false l.writing l.pinging (λ e. e) o
  Step-IsOrdered {l} (writes f c accepted w e) o = write_frame-IsOrdered f c accepted l e w o
  Step-IsOrdered {l} (stops_writing r) o = stopped-IsOrdered l l.reading false l.pinging (λ e. cc) o
  Step-IsOrdered {l} (stops_pinging r) o = stopped-IsOrdered l l.reading l.writing false (λ e. e) o

  Reach-IsOrdered : {l : Link mpsc} → Reach mpsc bytes id l → IsOrdered l
  Reach-IsOrdered initial = from_tls_stream-IsOrdered
  Reach-IsOrdered (next r s) = Step-IsOrdered s (Reach-IsOrdered r)

  -- However the tasks of a connection and the handlers that send on it interleave: what was written is a
  -- front part of what the channel accepted, in order; if all of that fits the wire format, a reader of the
  -- stream, in any chunks, gets exactly the written frames.
  pub Reach-feed :
      (l : Link mpsc) (chunks : List (List ℕ))
      → Reach mpsc bytes id l
      → All IsFrame l.written
      → flatten chunks ≡ l.stream
      → ((rest : List Frame) × (l.accepted ≡ l.written ++ rest))
        × (feed bytes [] chunks ≡ (l.written, []))
  Reach-feed l chunks r h e =
      let o = Reach-IsOrdered r in
      ((o.rest, o.parts), feed-encode_all bytes l.written chunks h (e ∙ o.stream))
