-- ===== src/Unix/Codec.antt =====
-- unix/codec.rs: the frames between the daemon and a local program. `rmp_serde` is a parameter.
pub mod RoundTrip
use uip.Base.{ℕ, ◌≡◌, List, [], ◌∷◌, ◌++◌, Option, none, some, Result, ok, err, length}
use uip.Data.Identifier.{Identifier}
use uip.Transport.Codec.{ByteBuf}

pub data ErrorCode : Type 0 where
  network_unreachable not_bound : ErrorCode

pub data Frame : Type 0 where
  bind : ℕ → Frame
  data_frame : Identifier → ℕ → List ℕ → Frame
  error : ErrorCode → Frame

-- `from_slice` reads one value from the front and ignores what follows it.
pub record FramePack : Type 0 where
  pub serialize : Frame → Result (List ℕ) (Unit {0})
  pub from_slice : List ℕ → Result Frame (Unit {0})
  pub from_slice-serialize :
      (f : Frame) (b rest : List ℕ) → serialize f ≡ ok b → from_slice (b ++ rest) ≡ ok f

-- `ErrorKind::Other`, and the panics of `expect`.
pub data CodecError : Type 0 where
  other panicked : CodecError

module _ (pack : FramePack) (bytes : ByteBuf) where
  -- The second component is the buffer after the call.
  unfoldable pub decode : List ℕ → Result (Option Frame) CodecError × List ℕ
  decode [] = (ok none, [])
  decode (b ∷ bs) = elim (pack.from_slice (b ∷ bs)) [
    | err _ ↦ (err other, b ∷ bs)
    | ok frame ↦ elim (pack.serialize frame) [
      | err _ ↦ (err panicked, b ∷ bs)
      | ok tmp ↦ (ok (some frame), bytes.advance (length tmp) (b ∷ bs))
    ]
  ]

  unfoldable pub encode : Frame → List ℕ → Result (Unit {0}) CodecError × List ℕ
  encode msg buf = elim (pack.serialize msg) [
    | err _ ↦ (err other, buf)
    | ok tmp ↦ (ok tt, buf ++ tmp)
  ]
