-- ===== src/Transport/Codec.antt =====
-- network/transport/codec.rs: the frames between two peers and their wire format.
-- The crates `bytes` and `byteorder` are the parameter `ByteBuf`; a u8 or u16 is a number.
pub mod Wire
pub mod RoundTrip
pub mod Stream
use uip.Base.{
  ℕ, zero, suc, ◌+◌, ◌-◌, ◌*◌, ◌/◌, ◌%◌, ◌≤◌, ◌<◌, ◌≡◌, List, [], ◌∷◌, ◌++◌, Option, none, some,
  Result, ok, err, ErrorKind, invalid_data, length, take, drop, first, ltb, ◌==◌, if◌then◌else◌,
}

-- `bytes::BytesMut`, seen as its unread bytes, and `byteorder::BigEndian`.
pub record ByteBuf : Type 0 where
  pub put_u8 : ℕ → List ℕ → List ℕ
  pub put_u16 : ℕ → List ℕ → List ℕ
  pub put : List ℕ → List ℕ → List ℕ
  pub advance : ℕ → List ℕ → List ℕ
  pub split_to : ℕ → List ℕ → List ℕ × List ℕ
  pub read_u16 : List ℕ → ℕ
  pub put_u8-append : (b : ℕ) (buf : List ℕ) → b < 256 → put_u8 b buf ≡ buf ++ (b ∷ [])
  pub put_u16-append :
      (n : ℕ) (buf : List ℕ) → n < 65536 → put_u16 n buf ≡ buf ++ (n / 256 ∷ n % 256 ∷ [])
  pub put-append : (src buf : List ℕ) → put src buf ≡ buf ++ src
  pub advance-drop : (n : ℕ) (buf : List ℕ) → n ≤ length buf → advance n buf ≡ drop n buf
  pub split_to-take :
      (n : ℕ) (buf : List ℕ) → n ≤ length buf → split_to n buf ≡ (take n buf, drop n buf)
  pub read_u16-pair : (hi lo : ℕ) → read_u16 (hi ∷ lo ∷ []) ≡ hi * 256 + lo

pub data Frame : Type 0 where
  ping pong : Frame
  data_frame : (src_port dst_port : ℕ) → (payload : List ℕ) → Frame

-- `&src[a..b]`
abbrev pub slice : ℕ → ℕ → List ℕ → List ℕ
slice a b src = take (b - a) (drop a src)

module _ (bytes : ByteBuf) where
  open bytes use {put_u8, put_u16, put, advance, split_to, read_u16}

  -- The result is always `Ok(())`; the second component is the buffer `dst` after the call.
  unfoldable pub encode : Frame → List ℕ → Result (Unit {0}) ErrorKind × List ℕ
  encode ping dst = (ok tt, put_u8 1 dst)
  encode pong dst = (ok tt, put_u8 2 dst)
  encode (data_frame src_port dst_port payload) dst = (
    ok tt,
    put payload
        (put_u16 (length payload % 65536) (put_u16 dst_port (put_u16 src_port (put_u8 3 dst)))),
  )

  -- The part of `decode` behind the match on the type byte.
  unfoldable pub decode_data : List ℕ → Result (Option Frame) ErrorKind × List ℕ
  decode_data src =
      if ltb (length src) 7
      then (ok none, src)
      else let src_port = read_u16 (slice 1 3 src) in
        let dst_port = read_u16 (slice 3 5 src) in
        let len = read_u16 (slice 5 7 src) in
        if ltb (length src) (7 + len)
        then (ok none, src)
        else let (payload, rest) = split_to len (advance 7 src) in
          (ok (some (data_frame src_port dst_port payload)), rest)

  -- The second component is the buffer `src` after the call.
  unfoldable pub decode : List ℕ → Result (Option Frame) ErrorKind × List ℕ
  unfolding decode_data
  decode src = elim (first src) [
    | none ↦ (ok none, src)
    | some typ ↦
        if typ == 1
        then (ok (some ping), advance 1 src)
        else if typ == 2
        then (ok (some pong), advance 1 src)
        else if typ == 3
        then decode_data src
        else (err invalid_data, src)
  ]
