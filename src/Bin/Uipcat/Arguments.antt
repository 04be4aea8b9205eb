-- ===== src/Bin/Uipcat/Arguments.antt =====
-- bin/uipcat.rs: `main`, from the arguments that `clap` parsed to the mode that is run.
pub mod Parsing
use uip.Base.{
  ℕ, ◌+◌, ◌-◌, ◌*◌, List, [], ◌∷◌, Option, none, some, Bool, true, false, ◌&&◌, Result, ok, err,
  leb, ltb, ◌==◌, if◌then◌else◌,
}
use uip.Data.Identifier.{Identifier, from_str}

-- The values of the arguments, texts as bytes.
pub record Matches : Type 0 where
  pub socket : Option (List ℕ)
  pub port : Option (List ℕ)
  pub listen : Bool
  pub remote_id : Option (List ℕ)

-- The digits of `str::parse::<u16>()`; `none` stands for an invalid digit or an overflow.
unfoldable pub decimal_digits : ℕ → List ℕ → Option ℕ
decimal_digits acc [] = some acc
decimal_digits acc (c ∷ cs) =
    let next = acc * 10 + (c - b'0') in
    let rest = decimal_digits next cs in
    if leb b'0' c && leb c b'9' then (if ltb next 65536 then rest else none) else none

-- The empty text and a single sign are refused, and a leading plus sign is skipped.
unfoldable pub parse_u16 : List ℕ → Option ℕ
parse_u16 [] = none
parse_u16 (c ∷ []) = decimal_digits 0 (c ∷ [])
parse_u16 (c ∷ d ∷ cs) =
    if c == b'+' then decimal_digits 0 (d ∷ cs) else decimal_digits 0 (c ∷ d ∷ cs)

-- What `main` goes on with, or which `expect` panics.
pub data Mode : Type 0 where
  listens : (socket_path : List ℕ) (port : ℕ) → Mode
  connects : (socket_path : List ℕ) → Identifier → (port : ℕ) → Mode
  no_socket no_port bad_port no_remote_id bad_remote_id : Mode

-- The branch of `main` behind the port.
unfoldable pub choose : List ℕ → ℕ → Matches → Mode
choose socket_path port matches = elim matches.listen [
  | true ↦ listens socket_path port
  | false ↦ elim matches.remote_id [
    | none ↦ no_remote_id
    | some text ↦ elim (from_str text) [
      | ok remote_id ↦ connects socket_path remote_id port
      | err e ↦ bad_remote_id
    ]
  ]
]

unfoldable pub main : Matches → Mode
unfolding choose
main matches = elim matches.socket [
  | none ↦ no_socket
  | some socket_path ↦ elim matches.port [
    | none ↦ no_port
    | some text ↦ elim (parse_u16 text) [
      | none ↦ bad_port
      | some port ↦ choose socket_path port matches
    ]
  ]
]
