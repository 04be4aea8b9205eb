-- ===== src/Bin/Uipd/Command.antt =====
-- bin/uipd.rs: `app`, and `main` from the words of the command line on.
use uip.Base.{ℕ, List, [], ◌∷◌, Option, none, some, Bool, true, false, ok, err}
use uip.Bin.Clap.{Arg, App, Clap}
use uip.Bin.Uipd.Files.{FileName, Toml, Files, Matches, Ended, main}
use uip.Data.Openssl.{Openssl}
use uip.Unix.State.{UnixState}
use uip.World.{NetworkState}
use Prim.Native.String.{String}
use text.Mathlib.Text.{◌==◌}

abbrev pub config_arg : Arg
config_arg = record {
  name = "config";
  short = "c";
  long = none;
  takes_value = true;
  required = false;
  required_unless = none;
}

abbrev pub app : App
app = record {
  title = "The UIP daemon";
  args = config_arg ∷ [];
  subcommands = "generate-config" ∷ [];
}

-- `Some("generate-config") == matches.subcommand_name()`
abbrev pub is_generate_config : Option String → Bool
is_generate_config none = false
is_generate_config (some name) = name == "generate-config"

module _ (clap : Clap) where
  unfoldable pub matches_of : clap.ArgMatches → Matches
  matches_of m = record {
    config = clap.value_of "config" m;
    generate_config = is_generate_config (clap.subcommand_name m);
  }

  -- `none` where `clap` ended the program.
  module _ (ssl : Openssl) (toml : Toml ssl) (writable : FileName → Bool) where
    unfoldable pub run :
        (halves : NetworkState → UnixState → NetworkState × UnixState) (prefix suffix : List ℕ)
        → List (List ℕ)
        → Files ssl toml
        → Option (Ended × Files ssl toml)
    unfolding matches_of
    run halves prefix suffix words files = elim (clap.get_matches app words) [
      | err _ ↦ none
      | ok m ↦ some (main ssl toml writable halves prefix suffix (matches_of m) files)
    ]
