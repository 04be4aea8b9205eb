-- ===== src/Transport/Codec/Stream/Chunks.antt =====
-- Reading a stream in chunks is reading it whole, also where it holds no frames.
use uip.Base.{
  ℕ, zero, suc, ◌+◌, ◌*◌, ◌≤◌, ◌<◌, ◌≡◌, refl, sym, ap, ◌∙◌, List, [], ◌∷◌, ◌++◌, append-nil,
  append_assoc, Option, none, some, Result, ok, err, ErrorKind, invalid_data, arith, length, take,
  drop, length-append, length-drop, dec_lt, inl, inr,
}
use uip.Transport.Codec.{ByteBuf, Frame, ping, pong, data_frame, decode}
use uip.Transport.Codec.Wire.{
  decode_nil, decode-ping, decode-pong, decode_whole, decode_partial, decode_short, decode_invalid,
}
use uip.Transport.Codec.Stream.{drain, feed, flatten}

take-append : (n : ℕ) (xs ys : List ℕ) → n ≤ length xs → take n (xs ++ ys) ≡ take n xs
take-append zero xs ys h = refl
take-append (suc n) [] ys h = absurd (omega arith)
take-append (suc n) (x ∷ xs) ys h = ap (◌∷◌ x) (take-append n xs ys (omega arith))

drop-append : (n : ℕ) (xs ys : List ℕ) → n ≤ length xs → drop n (xs ++ ys) ≡ drop n xs ++ ys
drop-append zero xs ys h = refl
drop-append (suc n) [] ys h = absurd (omega arith)
drop-append (suc n) (x ∷ xs) ys h = drop-append n xs ys (omega arith)

abbrev NoFrame : Result (Option Frame) ErrorKind → Type 0
NoFrame (ok (some f)) = ⊥
NoFrame _ = Unit {0}

module _ (bytes : ByteBuf) where
  -- `decode` takes a frame off the front, the same whatever follows the buffer, or leaves the buffer.
  data View (b : List ℕ) : Type 0 where
    taken :
        (f : Frame) (r : List ℕ)
        → length r < length b
        → ((c : List ℕ) → decode bytes (b ++ c) ≡ (ok (some f), r ++ c))
        → View b
    stopped : (x : Result (Option Frame) ErrorKind) → NoFrame x → decode bytes b ≡ (x, b) → View b

  View-data : (r : List ℕ) → View (3 ∷ r)
  View-data (a ∷ b ∷ c ∷ d ∷ e ∷ f ∷ r) = elim (dec_lt (length r) (e * 256 + f)) [
    | yes short ↦ stopped (ok none) tt (decode_partial bytes a b c d e f r short)
    | no long ↦
        let n = e * 256 + f in
        taken (data_frame (a * 256 + b) (c * 256 + d) (take n r)) (drop n r)
          (omega (arith, length-drop n r))
          λ z.
            decode_whole bytes a b c d e f (r ++ z) (omega (arith, length-append r z))
            ∙ rw (take-append n r z (omega arith), drop-append n r z (omega arith))
  ]
  View-data [] = stopped (ok none) tt (decode_short bytes [] (omega arith))
  View-data (a ∷ []) = stopped (ok none) tt (decode_short bytes (a ∷ []) (omega arith))
  View-data (a ∷ b ∷ []) = stopped (ok none) tt (decode_short bytes (a ∷ b ∷ []) (omega arith))
  View-data (a ∷ b ∷ c ∷ []) =
      stopped (ok none) tt (decode_short bytes (a ∷ b ∷ c ∷ []) (omega arith))
  View-data (a ∷ b ∷ c ∷ d ∷ []) =
      stopped (ok none) tt (decode_short bytes (a ∷ b ∷ c ∷ d ∷ []) (omega arith))
  View-data (a ∷ b ∷ c ∷ d ∷ e ∷ []) =
      stopped (ok none) tt (decode_short bytes (a ∷ b ∷ c ∷ d ∷ e ∷ []) (omega arith))

  view : (b : List ℕ) → View b
  view [] = stopped (ok none) tt (decode_nil bytes)
  view (zero ∷ r) = stopped (err invalid_data) tt (decode_invalid bytes 0 r (inr refl))
  view (suc zero ∷ r) = taken ping r (omega arith) (λ c. decode-ping bytes (r ++ c))
  view (suc (suc zero) ∷ r) = taken pong r (omega arith) (λ c. decode-pong bytes (r ++ c))
  view (suc (suc (suc zero)) ∷ r) = View-data r
  view (suc (suc (suc (suc t))) ∷ r) =
      stopped (err invalid_data) tt
        (decode_invalid bytes (suc (suc (suc (suc t)))) r (inl (omega arith)))

  drain_stopped :
      (n : ℕ) (x : Result (Option Frame) ErrorKind) (b : List ℕ)
      → NoFrame x
      → decode bytes b ≡ (x, b)
      → drain bytes n b ≡ ([], b)
  unfolding drain
  drain_stopped zero x b h e = refl
  drain_stopped (suc n) (ok none) b h e = rw e
  drain_stopped (suc n) (ok (some f)) b h e = absurd h
  drain_stopped (suc n) (err k) b h e = rw e

  drain_taken :
      (n : ℕ) (f : Frame) (r b : List ℕ)
      → decode bytes b ≡ (ok (some f), r)
      → drain bytes (suc n) b ≡ (f ∷ (drain bytes n r).0, (drain bytes n r).1)
  unfolding drain
  drain_taken n f r b e = rw e

  taken_alone :
      (f : Frame) (r b : List ℕ)
      → ((c : List ℕ) → decode bytes (b ++ c) ≡ (ok (some f), r ++ c))
      → decode bytes b ≡ (ok (some f), r)
  taken_alone f r b e = let e' = e [] in rw (append-nil b, append-nil r) at e'

  -- More fuel than there are bytes changes nothing.
  drain_fuel :
      (n m : ℕ) (b : List ℕ) → length b ≤ n → length b ≤ m → drain bytes n b ≡ drain bytes m b
  unfolding drain
  drain_fuel zero m [] hn hm = sym (drain_stopped m (ok none) [] tt (decode_nil bytes))
  drain_fuel zero m (x ∷ b) hn hm = absurd (omega arith)
  drain_fuel (suc n) zero [] hn hm = drain_stopped (suc n) (ok none) [] tt (decode_nil bytes)
  drain_fuel (suc n) zero (x ∷ b) hn hm = absurd (omega arith)
  drain_fuel (suc n) (suc m) b hn hm = elim (view b) [
    | stopped x h e ↦ drain_stopped (suc n) x b h e ∙ sym (drain_stopped (suc m) x b h e)
    | taken f r s e ↦
        let d = taken_alone f r b e in
        drain_taken n f r b d
        ∙ ap (λ p. (f ∷ p.0, p.1)) (drain_fuel n m r (omega arith) (omega arith))
        ∙ sym (drain_taken m f r b d)
  ]

  -- All the frames in front of a buffer, and what is left of it.
  abbrev pub drain_all : List ℕ → List Frame × List ℕ
  drain_all b = drain bytes (length b) b

  drain_all_taken :
      (f : Frame) (r b : List ℕ)
      → length r < length b
      → decode bytes b ≡ (ok (some f), r)
      → drain_all b ≡ (f ∷ (drain_all r).0, (drain_all r).1)
  drain_all_taken f r [] s e = absurd (omega arith)
  drain_all_taken f r (x ∷ b) s e =
      drain_taken (length b) f r (x ∷ b) e
      ∙ ap (λ p. (f ∷ p.0, p.1)) (drain_fuel (length b) (length r) r (omega arith) (omega arith))

  -- What is left and what follows are read on from, as if nothing had been read before.
  pub drain_all-append :
      (n : ℕ) (b c : List ℕ)
      → length b ≤ n
      → drain_all (b ++ c) ≡ (
        (drain_all b).0 ++ (drain_all ((drain_all b).1 ++ c)).0,
        (drain_all ((drain_all b).1 ++ c)).1,
      )
  unfolding drain
  drain_all-append zero [] c h = refl
  drain_all-append zero (x ∷ b) c h = absurd (omega arith)
  drain_all-append (suc n) b c h = elim (view b) [
    | stopped x p e ↦ rw (drain_stopped (length b) x b p e) refl
    | taken f r s e ↦ rw (drain_all_taken f r b s (taken_alone f r b e)) (
        drain_all_taken f (r ++ c) (b ++ c) (omega (arith, length-append r c, length-append b c))
          (e c)
        ∙ ap (λ p. (f ∷ p.0, p.1)) (drain_all-append n r c (omega arith)))
  ]

  -- What is left when the frames have been taken off holds no further frame.
  drain_all_left :
      (n : ℕ) (b : List ℕ) → length b ≤ n → drain_all (drain_all b).1 ≡ ([], (drain_all b).1)
  unfolding drain
  drain_all_left zero [] h = refl
  drain_all_left zero (x ∷ b) h = absurd (omega arith)
  drain_all_left (suc n) b h = elim (view b) [
    | stopped x p e ↦ rw (drain_stopped (length b) x b p e) (drain_stopped (length b) x b p e)
    | taken f r s e ↦
        rw (drain_all_taken f r b s (taken_alone f r b e)) (drain_all_left n r (omega arith))
  ]

  feed-drain_all :
      (b : List ℕ) (cs : List (List ℕ))
      → drain_all b ≡ ([], b)
      → feed bytes b cs ≡ drain_all (b ++ flatten cs)
  unfolding feed
  feed-drain_all b [] h = rw (append-nil b) (sym h)
  feed-drain_all b (c ∷ cs) h =
      let left = (drain_all (b ++ c)).1 in
      ap (λ p. ((drain_all (b ++ c)).0 ++ p.0, p.1))
        (feed-drain_all left cs (drain_all_left (length (b ++ c)) (b ++ c) (omega arith)))
      ∙ sym (drain_all-append (length (b ++ c)) (b ++ c) (flatten cs) (omega arith))
      ∙ ap drain_all (append_assoc b c (flatten cs))

  -- Whatever bytes arrive, well-formed or not, and however they are cut into chunks, reading the chunks
  -- one after the other gives the same frames and leaves the same bytes as reading them all at once.
  pub feed-flatten : (cs : List (List ℕ)) → feed bytes [] cs ≡ drain_all (flatten cs)
  unfolding drain
  feed-flatten cs = feed-drain_all [] cs refl
