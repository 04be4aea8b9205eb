-- ===== src/Bin/Uipcat/Arguments/Parsing.antt =====
-- Which port and which peer the arguments name.
use uip.Base.{
  ℕ, ◌+◌, ◌-◌, ◌*◌, ◌≤◌, ◌<◌, ◌≡◌, List, [], ◌∷◌, none, some, false, All, arith, ltb, if◌then◌else◌,
}
use uip.Bin.Uipcat.Arguments.{connects, decimal_digits, parse_u16, choose, main}
use uip.Data.Identifier.{Identifier, IsIdentifier, to_string}
use uip.Data.Identifier.Text.{from_str-to_string}

-- The number that decimal digits stand for, after those of `acc`.
unfoldable pub value : ℕ → List ℕ → ℕ
value acc [] = acc
value acc (c ∷ cs) = value (acc * 10 + (c - b'0')) cs

abbrev pub IsDigit : ℕ → Type 0
IsDigit c = (b'0' ≤ c) × (c ≤ b'9')

value-ge : (acc : ℕ) (cs : List ℕ) → acc ≤ value acc cs
unfolding value
value-ge acc [] = omega arith
value-ge acc (c ∷ cs) = omega (arith, value-ge (acc * 10 + (c - b'0')) cs)

decimal_digits-value :
    (acc : ℕ) (cs : List ℕ)
    → All IsDigit cs
    → acc < 65536
    → decimal_digits acc cs ≡ (if ltb (value acc cs) 65536 then some (value acc cs) else none)
unfolding decimal_digits value
decimal_digits-value acc [] h a = ground arith
decimal_digits-value acc (c ∷ cs) h a = ground (
  arith,
  decimal_digits-value (acc * 10 + (c - b'0')) cs h.1,
  value-ge (acc * 10 + (c - b'0')) cs,
)

-- A nonempty text of decimal digits is parsed to the number that it stands for, and refused exactly where
-- that does not fit in a u16.
pub parse_u16-value :
    (c : ℕ) (cs : List ℕ)
    → All IsDigit (c ∷ cs)
    → let n = value 0 (c ∷ cs) in parse_u16 (c ∷ cs) ≡ (if ltb n 65536 then some n else none)
unfolding parse_u16
parse_u16-value c [] h = decimal_digits-value 0 (c ∷ []) h (omega arith)
parse_u16-value c (d ∷ cs) h = ground (arith, decimal_digits-value 0 (c ∷ d ∷ cs) h (omega arith))

-- With a socket path, the decimal digits of a u16 and the text of an identifier, and without the flag to
-- listen, the client connects over that socket to that port of that peer.
pub main-connects :
    (socket_path : List ℕ) (c : ℕ) (cs : List ℕ) (id : Identifier)
    → All IsDigit (c ∷ cs)
    → value 0 (c ∷ cs) < 65536
    → IsIdentifier id
    → main (record {
      socket = some socket_path;
      port = some (c ∷ cs);
      listen = false;
      remote_id = some (to_string id);
    })
      ≡ connects socket_path id (value 0 (c ∷ cs))
unfolding main
main-connects socket_path c cs id h small full =
    let p : parse_u16 (c ∷ cs) ≡ some (value 0 (c ∷ cs)) = ground (arith, parse_u16-value c cs h) in
    rw (p, main) (rw ((from_str-to_string id full).0, choose))
