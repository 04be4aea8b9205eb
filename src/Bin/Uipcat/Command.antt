-- ===== src/Bin/Uipcat/Command.antt =====
-- bin/uipcat.rs: `app`, and `main` from the words of the command line on.
use uip.Base.{
  ℕ, ◌≡◌, refl, List, [], ◌∷◌, Option, none, some, true, false, Result, ok, err, here, there,
  Bool-cases, inl, inr, subst,
}
use uip.Bin.Clap.{Arg, App, Clap}
use uip.Bin.Uipcat.Arguments.{
  Matches, Mode, listens, connects, no_socket, no_port, bad_port, no_remote_id, bad_remote_id,
  parse_u16, choose, main,
}
use uip.Data.Identifier.{from_str}

abbrev pub socket_arg : Arg
socket_arg = record {
  name = "socket";
  short = "s";
  long = some "socket";
  takes_value = true;
  required = true;
  required_unless = none;
}

abbrev pub listen_arg : Arg
listen_arg = record {
  name = "listen";
  short = "l";
  long = some "listen";
  takes_value = false;
  required = false;
  required_unless = none;
}

abbrev pub remote_id_arg : Arg
remote_id_arg = record {
  name = "remote_id";
  short = "i";
  long = some "id";
  takes_value = true;
  required = false;
  required_unless = some "listen";
}

abbrev pub port_arg : Arg
port_arg = record {
  name = "port";
  short = "p";
  long = some "port";
  takes_value = true;
  required = true;
  required_unless = none;
}

abbrev pub app : App
app = record {
  title = "Netcat for UIP";
  args = socket_arg ∷ listen_arg ∷ remote_id_arg ∷ port_arg ∷ [];
  subcommands = [];
}

module _ (clap : Clap) where
  -- What `main` asks of the parsed arguments.
  unfoldable pub matches_of : clap.ArgMatches → Matches
  matches_of m = record {
    socket = clap.value_of "socket" m;
    port = clap.value_of "port" m;
    listen = clap.is_present "listen" m;
    remote_id = clap.value_of "remote_id" m;
  }

  -- `none` where `clap` ended the program.
  unfoldable pub run : List (List ℕ) → Option Mode
  unfolding matches_of
  run words = elim (clap.get_matches app words) [ err _ ↦ none | ok m ↦ some (main (matches_of m)) ]

-- Not a panic for an argument that is missing.
abbrev pub IsComplete : Mode → Type 0
IsComplete (listens s p) = Unit {0}
IsComplete (connects s i p) = Unit {0}
IsComplete no_socket = ⊥
IsComplete no_port = ⊥
IsComplete bad_port = Unit {0}
IsComplete no_remote_id = ⊥
IsComplete bad_remote_id = Unit {0}

choose-IsComplete :
    (s : List ℕ) (p : ℕ) (m : Matches)
    → (m.listen ≡ false → (v : List ℕ) × (m.remote_id ≡ some v))
    → IsComplete (choose s p m)
unfolding choose
choose-IsComplete s p m h = elim (Bool-cases m.listen) [
  | inl e ↦ rw (e, choose) tt
  | inr e ↦ let (v, q) = h e in rw (e, choose) (rw q (IsComplete-from_str v))
]
  where
    IsComplete-from_str :
        (v : List ℕ)
        → IsComplete (elim (from_str v) [ ok i ↦ connects s i p | err e ↦ bad_remote_id ])
    IsComplete-from_str v =
        elim (from_str v)
          as (λ r. IsComplete (elim r [ ok i ↦ connects s i p | err e ↦ bad_remote_id ])) [
            | ok i ↦ tt
            | err e ↦ tt
          ]

main-IsComplete :
    (m : Matches) (socket port : List ℕ)
    → m.socket ≡ some socket
    → m.port ≡ some port
    → (m.listen ≡ false → (v : List ℕ) × (m.remote_id ≡ some v))
    → IsComplete (main m)
unfolding main
main-IsComplete m socket port s p h = rw (s, main) (rw p (parsed (parse_u16 port)))
  where
    parsed : (r : Option ℕ) → IsComplete (elim r [ none ↦ bad_port | some q ↦ choose socket q m ])
    parsed none = tt
    parsed (some q) = choose-IsComplete socket q m h

module _ (clap : Clap) where
  accepted-IsComplete :
      (words : List (List ℕ)) (m : clap.ArgMatches)
      → clap.get_matches app words ≡ ok m
      → IsComplete (main (matches_of clap m))
  unfolding matches_of
  accepted-IsComplete words m e =
      let at_socket = here in
      let at_id = there (there here) in
      let at_port = there (there (there here)) in
      let (s, is_s) =
        clap.get_matches-value_of app words m socket_arg e at_socket refl
          (clap.get_matches-required app words m socket_arg e at_socket refl) in
      let (p, is_p) =
        clap.get_matches-value_of app words m port_arg e at_port refl
          (clap.get_matches-required app words m port_arg e at_port refl) in
      main-IsComplete (matches_of clap m) s p is_s is_p (λ n.
        clap.get_matches-value_of app words m remote_id_arg e at_id refl
          (clap.get_matches-required_unless app words m remote_id_arg "listen" e at_id refl n))

  -- Whatever the command line, the client never panics for an argument that is missing: with what its
  -- table of arguments demands, `clap` ends the program first, or there are a socket, a port, and a peer
  -- unless the flag to listen is given.
  pub run-IsComplete :
      (words : List (List ℕ)) (mode : Mode) → run clap words ≡ some mode → IsComplete mode
  unfolding run
  run-IsComplete words mode e = ended (clap.get_matches app words) refl e
    where
      ended :
          (r : Result clap.ArgMatches (Unit {0}))
          → clap.get_matches app words ≡ r
          → elim r [ err _ ↦ none | ok m ↦ some (main (matches_of clap m)) ] ≡ some mode
          → IsComplete mode
      ended (err _) f q = absurd (cc)
      ended (ok m) f q =
          let same : main (matches_of clap m) ≡ mode = cc in
          subst IsComplete same (accepted-IsComplete words m f)
