-- ===== src/Bin/Uipd/Files.antt =====
-- bin/uipd.rs: `main` with its configuration file. The crate `toml`, the command line that `clap` parsed
-- and the file system are parameters; the time between start and `ctrl_c` is a function of the state that
-- the two halves start in.
pub mod Runs
use uip.Base.{
  ℕ, List, [], ◌∷◌, Option, none, some, Bool, true, false, Result, ok, err, ◌≡◌, ErrorKind,
  ℕ_discrete, All,
}
use uip.Base.Map
use uip.Base.Map.{Map, Key}
use uip.Bin.Uipd.{
  Configuration, with_default_port, network_state, unix_state, final_configuration,
  new_configuration,
}
use uip.Data.Address.{IsPlain}
use uip.Data.Identity.{clone}
use uip.Data.Openssl.{Openssl}
use uip.Unix.State.{UnixState}
use uip.World.{NetworkState}

-- Paths are texts, as bytes.
abbrev pub FileName : Type 0
FileName = List ℕ

pub FileName-discrete : Discrete (List ℕ)
FileName-discrete = hlevel ℕ_discrete

instance abbrev pub file_key : Key (List ℕ)
file_key = record { dec = FileName-discrete }

-- `toml::to_string_pretty` and `toml::from_str` on a configuration; what is written is read back, if
-- it has no address with more than an ip and a port.
pub record Toml (ssl : Openssl) : Type 1 where
  pub Text : Type 0
  pub to_string_pretty : Configuration ssl → Result Text (Unit {0})
  pub from_str : Text → Result (Configuration ssl) (Unit {0})
  pub from_str-to_string_pretty :
      (c : Configuration ssl) (t : Text)
      → All (λ e. All IsPlain e.1.addresses) c.pib.peers
      → to_string_pretty c ≡ ok t
      → from_str t ≡ ok c

-- The texts of the errors are not modelled.
pub data FileError : Type 0 where
  unreadable bad_syntax bad_value unwritable : FileError

-- What the command line asks for.
pub record Matches : Type 0 where
  pub config : Option FileName
  pub generate_config : Bool

-- How a run of the program ended.
pub data Ended : Type 0 where
  no_file generated stopped panicked : Ended
  failed : FileError → Ended

-- `.server.toml`
abbrev pub default_path : FileName
default_path =
    b'.' ∷ b's' ∷ b'e' ∷ b'r' ∷ b'v' ∷ b'e' ∷ b'r' ∷ b'.' ∷ b't' ∷ b'o' ∷ b'm' ∷ b'l' ∷ []

abbrev pub value_or {ℓ} : {A : Type ℓ} → A → Option A → A
value_or a none = a
value_or a (some b) = b

module _ (ssl : Openssl) (toml : Toml ssl) where
  open toml use {Text, to_string_pretty, from_str}

  abbrev pub Files : Type 0
  Files = Map FileName Text

  -- `writable` is whether `fs::write` succeeds.
  module _ (writable : FileName → Bool) where
    -- A path that is no file cannot be read.
    unfoldable pub read_configuration : FileName → Files → Result (Configuration ssl) FileError
    read_configuration path files = elim (Map.get path files) [
      | none ↦ err unreadable
      | some content ↦ elim (from_str content) [ ok c ↦ ok c | err e ↦ err bad_syntax ]
    ]

    unfoldable pub write_configuration :
        FileName → Configuration ssl → Files → Result (Unit {0}) FileError × Files
    write_configuration path conf files = elim (to_string_pretty conf) [
      | err e ↦ (err bad_value, files)
      | ok content ↦ elim (writable path) [
        | true ↦ (ok tt, Map.insert path content files)
        | false ↦ (err unwritable, files)
      ]
    ]

    -- An error of writing is only logged; an error of `Identity::generate` is a panic. `prefix` and
    -- `suffix` are the parts of the path of the control socket.
    unfoldable pub generate_configuration :
        (prefix suffix : List ℕ) → FileName → Files → Ended × Files
    unfolding write_configuration
    generate_configuration prefix suffix path files = elim (new_configuration ssl prefix suffix) [
      | err e ↦ (panicked, files)
      | ok config ↦ (generated, (write_configuration path config files).1)
    ]

    -- From the configuration to the end of `main`: `run` is what becomes of the two halves until the
    -- daemon is stopped. An error of `config.id.clone()` is a panic; of the copy the network half has the
    -- identifier, which is the same.
    unfoldable pub run_daemon :
        (run : NetworkState → UnixState → NetworkState × UnixState)
        → FileName
        → Configuration ssl
        → Files
        → Ended × Files
    unfolding write_configuration
    run_daemon run path c files =
        let config = with_default_port ssl c in
        let (network, unix) = run (network_state ssl config) (unix_state ssl config) in
        elim (clone ssl config.id) [
          | err e ↦ (panicked, files)
          | ok copy ↦ (
            stopped,
            (write_configuration path (final_configuration ssl config network unix) files).1,
          )
        ]

    unfoldable pub main :
        (run : NetworkState → UnixState → NetworkState × UnixState) (prefix suffix : List ℕ)
        → Matches
        → Files
        → Ended × Files
    unfolding generate_configuration read_configuration run_daemon
    main run prefix suffix matches files =
        let path = value_or default_path matches.config in
        elim matches.generate_config [
          | true ↦ generate_configuration prefix suffix path files
          | false ↦ elim (Map.get path files) [
            | none ↦ (no_file, files)
            | some content ↦ elim (read_configuration path files) [
              | err e ↦ (failed e, files)
              | ok c ↦ run_daemon run path c files
            ]
          ]
        ]
