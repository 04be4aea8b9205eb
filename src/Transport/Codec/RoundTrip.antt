-- ===== src/Transport/Codec/RoundTrip.antt =====
-- `decode` inverts `encode` on frames whose payload length fits in the u16 length field, waits for
-- more on every proper prefix, and misreads longer payloads.
use uip.Base.{
  ℕ, ◌/◌, ◌%◌, ◌≤◌, ◌<◌, ◌≡◌, ◌≢◌, ap, List, [], ◌∷◌, ◌++◌, none, some, ok, arith, length, take,
  drop, length-append, length-take, take-length-append, drop-length-append,
}
use uip.Transport.Codec.{ByteBuf, Frame, ping, pong, data_frame, encode, decode}
use uip.Transport.Codec.Wire.{
  wire, HasPorts, IsFrame, encode-wire, decode-ping, decode-pong, decode_whole, decode_partial,
  decode_short, decode_nil,
}

pub IsFrame-HasPorts : (f : Frame) → IsFrame f → HasPorts f
IsFrame-HasPorts ping h = tt
IsFrame-HasPorts pong h = tt
IsFrame-HasPorts (data_frame s d p) h = (h.0, h.1)

module _ (bytes : ByteBuf) where
  pub decode-wire :
      (f : Frame) (rest : List ℕ) → IsFrame f → decode bytes (wire f ++ rest) ≡ (ok (some f), rest)
  decode-wire ping rest h = decode-ping bytes rest
  decode-wire pong rest h = decode-pong bytes rest
  decode-wire (data_frame s d p) rest h = ground (
    arith,
    decode_whole bytes (s / 256) (s % 256) (d / 256) (d % 256) (length p % 65536 / 256)
        (length p % 65536 % 256) (p ++ rest),
    length-append p rest,
    take-length-append p rest,
    drop-length-append p rest,
  )

  -- For a frame whose ports and payload length fit in a u16, `decode` on the bytes that `encode`
  -- appended to an empty buffer, whatever follows them, returns the frame and leaves what follows.
  pub decode-encode :
      (f : Frame) (rest : List ℕ)
      → IsFrame f
      → decode bytes ((encode bytes f []).1 ++ rest) ≡ (ok (some f), rest)
  decode-encode f rest h = rw (encode-wire bytes f [] (IsFrame-HasPorts f h)) (decode-wire f rest h)

  -- If the payload has 65536 bytes or more, `decode` on what `encode` wrote returns a frame with
  -- the first `length % 65536` bytes of the payload, and leaves the others in the buffer.
  pub decode-encode_oversize :
      (s d : ℕ) (p : List ℕ)
      → s < 65536
      → d < 65536
      → 65536 ≤ length p
      → (decode bytes (encode bytes (data_frame s d p) []).1
          ≡ (ok (some (data_frame s d (take (length p % 65536) p))), drop (length p % 65536) p))
        × (take (length p % 65536) p ≢ p)
  decode-encode_oversize s d p hs hd big = (
    rw (encode-wire bytes (data_frame s d p) [] (hs, hd)) (
        ground (
          arith,
          decode_whole bytes (s / 256) (s % 256) (d / 256) (d % 256) (length p % 65536 / 256)
              (length p % 65536 % 256) p,
        )),
    λ e. omega (arith, ap length e, length-take (length p % 65536) p),
  )

  -- On every proper prefix of the bytes of such a frame `decode` asks for more and keeps the buffer.
  pub decode-prefix :
      (f : Frame) (x : ℕ) (front back : List ℕ)
      → IsFrame f
      → (encode bytes f []).1 ≡ front ++ (x ∷ back)
      → decode bytes front ≡ (ok none, front)
  decode-prefix f x front back h e =
      wait f x front back h (rw (encode-wire bytes f [] (IsFrame-HasPorts f h)) at e)
    where
      wait :
          (f : Frame) (x : ℕ) (front back : List ℕ)
          → IsFrame f
          → wire f ≡ front ++ (x ∷ back)
          → decode bytes front ≡ (ok none, front)
      wait f x [] back h e = decode_nil bytes
      wait ping x (t ∷ r) back h e = absurd (omega (arith, ap length e, length-append r (x ∷ back)))
      wait pong x (t ∷ r) back h e = absurd (omega (arith, ap length e, length-append r (x ∷ back)))
      wait (data_frame s d p) x (t ∷ a ∷ b ∷ c ∷ g ∷ k ∷ l ∷ r) back h e =
          ground
            (arith, decode_partial bytes a b c g k l r, length-append r (x ∷ back), ap length e)
      wait (data_frame s d p) x (t ∷ r) back h e = ground (arith, decode_short bytes r)
