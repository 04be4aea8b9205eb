-- ===== src/Unix/Codec/RoundTrip.antt =====
-- Reading back what was written, and when `decode` waits.
use uip.Base.{
  ℕ, suc, ◌≡◌, ◌≢◌, refl, ap, List, [], ◌∷◌, ◌++◌, none, some, ok, err, length, length-append,
  drop-length-append, arith,
}
use uip.Transport.Codec.{ByteBuf}
use uip.Unix.Codec.{Frame, FramePack, other, decode, encode}

module _ (pack : FramePack) (bytes : ByteBuf) where
  -- If a frame can be serialised to at least one byte, `decode` on what `encode` wrote for it,
  -- whatever follows, returns the frame and leaves what follows.
  pub decode-encode_frame :
      (f : Frame) (c : ℕ) (tmp rest : List ℕ)
      → pack.serialize f ≡ ok (c ∷ tmp)
      → decode pack bytes ((encode pack bytes f []).1 ++ rest) ≡ (ok (some f), rest)
  unfolding decode encode
  decode-encode_frame f c tmp rest e =
      rw (e, encode)
        (rw (pack.from_slice-serialize f (c ∷ tmp) rest e) (
          rw e (
            rw
              (bytes.advance-drop (suc (length tmp)) (c ∷ (tmp ++ rest))
                (omega (arith, length-append tmp rest)))
              (ap (λ r. (ok (some f), r)) (drop-length-append tmp rest)))))

  -- `decode` asks for more bytes exactly on the empty buffer; when `from_slice` fails on any other, as
  -- it does on the beginning of a frame, `decode` fails, and the buffer stays.
  pub decode_waits :
      (buf : List ℕ)
      → (((b : List ℕ) → decode pack bytes buf ≡ (ok none, b) → buf ≡ [])
          × (buf ≡ [] → decode pack bytes buf ≡ (ok none, [])))
        × (pack.from_slice buf ≡ err tt → buf ≢ [] → decode pack bytes buf ≡ (err other, buf))
  unfolding decode
  decode_waits [] = ((λ b e. refl, λ e. refl), λ e n. absurd (n refl))
  decode_waits (c ∷ cs) = ((λ b e. absurd (ground arith), λ e. cc), λ e n. rw (e, decode))
