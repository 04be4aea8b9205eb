-- ===== src/Bin/Clap.antt =====
-- The crate `clap`, as far as src/bin/uipcat.rs and src/bin/uipd.rs use it: what they say of their arguments,
-- and what they ask of what was parsed.
use uip.Base.{ℕ, ◌≡◌, List, Option, some, Bool, true, false, Result, ok, Elem}
use Prim.Native.String.{String}

-- An argument, with what the builder was told of it; `required` and `takes_value` are off where they are
-- not called. Help texts are left out.
pub record Arg : Type 0 where
  pub name : String
  pub short : String
  pub long : Option String
  pub takes_value : Bool
  pub required : Bool
  pub required_unless : Option String

pub record App : Type 0 where
  pub title : String
  pub args : List Arg
  pub subcommands : List String

-- Words of the command line and values are bytes. `get_matches` ends the program where it gives an error.
pub record Clap : Type 1 where
  pub ArgMatches : Type 0
  pub get_matches : App → List (List ℕ) → Result ArgMatches (Unit {0})
  pub value_of : String → ArgMatches → Option (List ℕ)
  pub is_present : String → ArgMatches → Bool
  pub subcommand_name : ArgMatches → Option String
  pub get_matches-required :
      (app : App) (words : List (List ℕ)) (m : ArgMatches) (a : Arg)
      → get_matches app words ≡ ok m
      → Elem a app.args
      → a.required ≡ true
      → is_present a.name m ≡ true
  pub get_matches-required_unless :
      (app : App) (words : List (List ℕ)) (m : ArgMatches) (a : Arg) (other : String)
      → get_matches app words ≡ ok m
      → Elem a app.args
      → a.required_unless ≡ some other
      → is_present other m ≡ false
      → is_present a.name m ≡ true
  pub get_matches-value_of :
      (app : App) (words : List (List ℕ)) (m : ArgMatches) (a : Arg)
      → get_matches app words ≡ ok m
      → Elem a app.args
      → a.takes_value ≡ true
      → is_present a.name m ≡ true
      → (v : List ℕ) × (value_of a.name m ≡ some v)
