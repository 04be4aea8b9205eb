-- ===== src/Transport/Codec/Stream.antt =====
-- A stream of frames read in chunks. `drain` takes frames off the buffer while `decode` finds any,
-- and `feed` does so after each chunk: what a framed reader does with the codec.
pub mod Chunks
use uip.Base.{
  ℕ, zero, suc, ◌≤◌, ◌<◌, ◌≡◌, refl, sym, ap, ◌∙◌, List, [], ◌∷◌, ◌++◌, append-nil, append_assoc,
  Option, none, some, Result, ok, err, ErrorKind, arith, length, All, length-append, dec_lt,
}
use uip.Transport.Codec.{ByteBuf, Frame, ping, pong, data_frame, encode, decode}
use uip.Transport.Codec.Wire.{wire, IsFrame, encode-wire, decode_nil}
use uip.Transport.Codec.RoundTrip.{decode-wire, decode-prefix, IsFrame-HasPorts}

abbrev pub flatten : List (List ℕ) → List ℕ
flatten [] = []
flatten (c ∷ cs) = c ++ flatten cs

abbrev wires : List Frame → List ℕ
wires [] = []
wires (f ∷ fs) = wire f ++ wires fs

split_le :
    (u b : List ℕ) {v rest : List ℕ}
    → b ++ rest ≡ u ++ v
    → length u ≤ length b
    → (c : List ℕ) × (b ≡ u ++ c) × (c ++ rest ≡ v)
split_le [] b e h = (b, refl, e)
split_le (x ∷ u) [] e h = absurd (omega arith)
split_le (x ∷ u) (y ∷ b) e h = let (c, p, q) = split_le u b (cc) (omega arith) in (c, cc, q)

split_lt :
    (u b v rest : List ℕ)
    → b ++ rest ≡ u ++ v
    → length b < length u
    → (x : ℕ) × (c : List ℕ) × (u ≡ b ++ (x ∷ c))
split_lt [] b v rest e h = absurd (omega arith)
split_lt (x ∷ u) [] v rest e h = (x, u, refl)
split_lt (x ∷ u) (y ∷ b) v rest e h =
    let (z, c, p) = split_lt u b v rest (cc) (omega arith) in (z, c, cc)

length-wire_pos : (f : Frame) → 0 < length (wire f)
length-wire_pos ping = omega arith
length-wire_pos pong = omega arith
length-wire_pos (data_frame s d p) = omega arith

nil_of_append : (b rest : List ℕ) → b ++ rest ≡ [] → b ≡ []
nil_of_append [] rest e = refl
nil_of_append (x ∷ b) rest e = cc

wires_nil : (fs : List Frame) → wires fs ≡ [] → fs ≡ []
wires_nil [] e = refl
wires_nil (f ∷ fs) e =
    absurd (omega (arith, ap length e, length-append (wire f) (wires fs), length-wire_pos f))

-- A buffer shorter than the next frame cannot be all that is left.
nonempty :
    (f : Frame) (fs : List Frame) (b rest : List ℕ)
    → rest ≡ []
    → b ++ rest ≡ wire f ++ wires fs
    → length b < length (wire f)
    → ⊥
nonempty f fs b rest z e h =
    omega (arith, ap length z, ap length e, length-append b rest, length-append (wire f) (wires fs))

module _ (bytes : ByteBuf) where
  -- `encode` of each frame in turn, onto one buffer.
  unfoldable pub encode_all : List Frame → List ℕ → List ℕ
  encode_all [] dst = dst
  encode_all (f ∷ fs) dst = encode_all fs (encode bytes f dst).1

  abbrev continue :
      (List ℕ → List Frame × List ℕ)
      → Result (Option Frame) ErrorKind × List ℕ
      → List Frame × List ℕ
  continue again (ok (some f), b) = (f ∷ (again b).0, (again b).1)
  continue again (ok none, b) = ([], b)
  continue again (err e, b) = ([], b)

  pub drain : ℕ → List ℕ → List Frame × List ℕ
  drain zero b = ([], b)
  drain (suc n) b = continue (λ b'. drain n b') (decode bytes b)

  pub feed : List ℕ → List (List ℕ) → List Frame × List ℕ
  feed b [] = ([], b)
  feed b (c ∷ cs) =
      let (fs, b') = drain (length (b ++ c)) (b ++ c) in
      let (gs, b'') = feed b' cs in (fs ++ gs, b'')

  pub feed_nil : feed [] [] ≡ ([], [])
  unfolding feed
  feed_nil = refl

  encode_all-wires :
      (fs : List Frame) (dst : List ℕ) → All IsFrame fs → encode_all fs dst ≡ dst ++ wires fs
  unfolding encode_all
  encode_all-wires [] dst h = sym (append-nil dst)
  encode_all-wires (f ∷ fs) dst h =
      rw (encode-wire bytes f dst (IsFrame-HasPorts f h.0))
        (encode_all-wires fs (dst ++ wire f) h.1 ∙ append_assoc dst (wire f) (wires fs))

  -- What is left of the frames `fs` when `drain` stopped in front of `rest`.
  record Left (fs : List Frame) (b rest : List ℕ) (n : ℕ) : Type 0 where
    done : List Frame
    todo : List Frame
    buffer : List ℕ
    parts : fs ≡ done ++ todo
    frames : All IsFrame todo
    more : buffer ++ rest ≡ wires todo
    stop : rest ≡ [] → todo ≡ []
    run : drain n b ≡ (done, buffer)

  drain_nil : (n : ℕ) → drain n [] ≡ ([], [])
  unfolding drain
  drain_nil zero = refl
  drain_nil (suc n) = rw (decode_nil bytes)

  encode-wire-nil : (f : Frame) (bs : List ℕ) → IsFrame f → wire f ≡ bs → (encode bytes f []).1 ≡ bs
  encode-wire-nil f bs h p = rw (encode-wire bytes f [] (IsFrame-HasPorts f h)) p

  Left-cons :
      (f : Frame) (fs : List Frame) (b c rest : List ℕ) (n : ℕ)
      → IsFrame f
      → b ≡ wire f ++ c
      → Left fs c rest n
      → Left (f ∷ fs) b rest (suc n)
  unfolding drain
  Left-cons f fs b c rest n h p l = record {
    done = f ∷ l.done;
    todo = l.todo;
    buffer = l.buffer;
    parts = ap (◌∷◌ f) l.parts;
    frames = l.frames;
    more = l.more;
    stop = l.stop;
    run = rw p (rw (decode-wire bytes f c h) (rw l.run));
  }

  drain-Left :
      (fs : List Frame) (n : ℕ) (b rest : List ℕ)
      → All IsFrame fs
      → b ++ rest ≡ wires fs
      → length b ≤ n
      → Left fs b rest n
  unfolding drain
  drain-Left [] n b rest h e hn =
      let e' : b ≡ [] = nil_of_append b rest e in
      record {
        done = [];
        todo = [];
        buffer = [];
        parts = refl;
        frames = tt;
        more = rw (e') at e;
        stop = λ _. refl;
        run = rw e' (drain_nil n);
      }
  drain-Left (f ∷ fs) zero b rest h e hn = record {
    done = [];
    todo = f ∷ fs;
    buffer = b;
    parts = refl;
    frames = h;
    more = e;
    stop = λ z. absurd (nonempty f fs b rest z e (omega (arith, length-wire_pos f)));
    run = refl;
  }
  drain-Left (f ∷ fs) (suc n) b rest h e hn = elim (dec_lt (length b) (length (wire f))) [
    | yes short ↦
        let (x, c, p) = split_lt (wire f) b (wires fs) rest e short in
        record {
          done = [];
          todo = f ∷ fs;
          buffer = b;
          parts = refl;
          frames = h;
          more = e;
          stop = λ z. absurd (nonempty f fs b rest z e short);
          run = rw (decode-prefix bytes f x b c h.0 (encode-wire-nil f (b ++ (x ∷ c)) h.0 p)) refl;
        }
    | no long ↦
        let (c, p, q) = split_le (wire f) b e (omega arith) in
        Left-cons f fs b c rest n h.0 p (
          drain-Left fs n c rest h.1 q
            (omega (arith, ap length p, length-append (wire f) c, length-wire_pos f)))
  ]

  feed-Left :
      (fs : List Frame) (b : List ℕ) (cs : List (List ℕ))
      → All IsFrame fs
      → b ++ flatten cs ≡ wires fs
      → (flatten cs ≡ [] → fs ≡ [])
      → feed b cs ≡ (fs, [])
  unfolding feed
  feed-Left fs b [] h e stop =
      let z : fs ≡ [] = stop refl in
      let y : b ++ [] ≡ [] = rw z at e in rw z (rw (nil_of_append b [] y))
  feed-Left fs b (c ∷ cs) h e stop =
      let l =
        drain-Left fs (length (b ++ c)) (b ++ c) (flatten cs) h (append_assoc b c (flatten cs) ∙ e)
          (omega arith) in
      rw l.run (rw (feed-Left l.todo l.buffer cs l.frames l.more l.stop) (rw (sym l.parts)))

  -- However the bytes of a list of frames with u16 ports and payload lengths are cut into chunks,
  -- reading the chunks one after the other gives those frames, in order, and leaves no bytes.
  pub feed-encode_all :
      (fs : List Frame) (cs : List (List ℕ))
      → All IsFrame fs
      → flatten cs ≡ encode_all fs []
      → feed [] cs ≡ (fs, [])
  feed-encode_all fs cs h e =
      let e' : flatten cs ≡ wires fs = e ∙ encode_all-wires fs [] h in
      feed-Left fs [] cs h e' (λ z. wires_nil fs (sym e' ∙ z))

  -- A front part of the bytes gives a front part of the frames.
  pub drain-front :
      (fs : List Frame) (n : ℕ) (b rest : List ℕ)
      → All IsFrame fs
      → b ++ rest ≡ encode_all fs []
      → length b ≤ n
      → (todo : List Frame) × (fs ≡ (drain n b).0 ++ todo)
  drain-front fs n b rest h e k =
      let l = drain-Left fs n b rest h (e ∙ encode_all-wires fs [] h) k in
      (l.todo, rw l.run l.parts)
