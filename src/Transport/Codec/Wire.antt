-- ===== src/Transport/Codec/Wire.antt =====
-- The codec with the buffer operations gone: the bytes of a frame, and `decode` on a buffer that
-- shows its first bytes.
use uip.Base.{
  ℕ, ◌+◌, ◌*◌, ◌/◌, ◌%◌, ◌≤◌, ◌<◌, ◌≡◌, refl, List, [], ◌∷◌, ◌++◌, append_assoc, none, some, ok,
  err, invalid_data, ◌⊎◌, arith, length, take, drop,
}
use uip.Transport.Codec.{ByteBuf, Frame, ping, pong, data_frame, encode, decode}

-- The documented format: a type byte; for data two ports, a length and the payload, big-endian.
abbrev pub wire : Frame → List ℕ
wire ping = 1 ∷ []
wire pong = 2 ∷ []
wire (data_frame s d p) =
    3 ∷ s / 256 ∷ s % 256 ∷ d / 256 ∷ d % 256 ∷ length p % 65536 / 256 ∷ length p % 65536 % 256 ∷ p

-- The ports are u16.
abbrev pub HasPorts : Frame → Type 0
HasPorts ping = Unit
HasPorts pong = Unit
HasPorts (data_frame s d p) = (s < 65536) × (d < 65536)

-- The ports are u16, and the payload's length fits in a u16.
abbrev pub IsFrame : Frame → Type 0
IsFrame ping = Unit
IsFrame pong = Unit
IsFrame (data_frame s d p) = (s < 65536) × (d < 65536) × (length p < 65536)

module _ (bytes : ByteBuf) where
  pub encode-wire :
      (f : Frame) (dst : List ℕ) → HasPorts f → encode bytes f dst ≡ (ok tt, dst ++ wire f)
  unfolding encode
  encode-wire ping dst h = rw (bytes.put_u8-append 1 dst (omega arith))
  encode-wire pong dst h = rw (bytes.put_u8-append 2 dst (omega arith))
  encode-wire (data_frame s d p) dst h = rw (bytes.put_u8-append 3 dst (omega arith)) (
      rw (bytes.put_u16-append s _ (omega arith)) (
        rw (bytes.put_u16-append d _ (omega arith)) (
          rw (bytes.put_u16-append (length p % 65536) _ (omega arith))
            (rw bytes.put-append (simp append_assoc)))))

  pub decode-ping : (r : List ℕ) → decode bytes (1 ∷ r) ≡ (ok (some ping), r)
  unfolding decode
  decode-ping r = rw (bytes.advance-drop 1 (1 ∷ r) (omega arith))

  pub decode-pong : (r : List ℕ) → decode bytes (2 ∷ r) ≡ (ok (some pong), r)
  unfolding decode
  decode-pong r = rw (bytes.advance-drop 1 (2 ∷ r) (omega arith))

  pub decode_whole :
      (a b c d e f : ℕ) (r : List ℕ)
      → e * 256 + f ≤ length r
      → decode bytes (3 ∷ a ∷ b ∷ c ∷ d ∷ e ∷ f ∷ r) ≡ (
        ok (some (data_frame (a * 256 + b) (c * 256 + d) (take (e * 256 + f) r))),
        drop (e * 256 + f) r,
      )
  unfolding decode
  decode_whole a b c d e f r h = ground (
    arith,
    bytes.read_u16-pair a b,
    bytes.read_u16-pair c d,
    bytes.read_u16-pair e f,
    bytes.advance-drop 7 (3 ∷ a ∷ b ∷ c ∷ d ∷ e ∷ f ∷ r),
    bytes.split_to-take (e * 256 + f) r,
  )

  -- A data frame whose payload has not arrived in full.
  pub decode_partial :
      (a b c d e f : ℕ) (r : List ℕ)
      → length r < e * 256 + f
      → decode bytes (3 ∷ a ∷ b ∷ c ∷ d ∷ e ∷ f ∷ r) ≡ (ok none, 3 ∷ a ∷ b ∷ c ∷ d ∷ e ∷ f ∷ r)
  unfolding decode
  decode_partial a b c d e f r h = ground (arith, bytes.read_u16-pair e f)

  pub decode_short : (r : List ℕ) → length r < 6 → decode bytes (3 ∷ r) ≡ (ok none, 3 ∷ r)
  unfolding decode
  decode_short r h = ground arith

  pub decode_invalid :
      (t : ℕ) (r : List ℕ) → 3 < t ⊎ t ≡ 0 → decode bytes (t ∷ r) ≡ (err invalid_data, t ∷ r)
  unfolding decode
  decode_invalid t r h = ground arith

  pub decode_nil : decode bytes [] ≡ (ok none, [])
  unfolding decode
  decode_nil = refl
