-- ===== src/Tests/Files.antt =====
-- The daemon with its configuration file, and the client's arguments.
use uip.Base.{replicate, ◌<◌, ◌≡◌, refl, sym, [], ◌∷◌, some, Bool, true, false, ok, All, arith}
use uip.Base.Map
use uip.Bin.Uipcat.Arguments.{parse_u16, connects}
use uip.Bin.Uipcat.Arguments
use uip.Bin.Uipcat.Arguments.Parsing.{value, IsDigit, main-connects}
use uip.Bin.Uipd.{Configuration, new_configuration}
use uip.Bin.Uipd.Files.{
  Toml, Matches, FileName, file_key, main, default_path, read_configuration, Files,
}
use uip.Data.Identity.{generate, clone}
use uip.Data.Identifier.{to_string, IsIdentifier}
use uip.Tests.Fixtures.{ssl, alice, bob, alice-byte}
use uip.Unix.State.{UnixState}
use uip.World.{NetworkState}

-- A text is the configuration that it stands for.
abbrev toml : Toml ssl
toml = record {
  Text = Configuration ssl;
  to_string_pretty = λ c. ok c;
  from_str = λ t. ok t;
  from_str-to_string_pretty = λ c t h e. sym e;
}

abbrev writable : FileName → Bool
writable path = true

abbrev idle : NetworkState → UnixState → NetworkState × UnixState
idle n u = (n, u)

abbrev conf : Configuration ssl
conf = record {
  id = record { identifier = alice; key = 5 ∷ []; cert = 5 ∷ [] };
  pib = record { peers = [] };
  relays = bob ∷ [];
  port = 0;
  ctl_socket = b'/' ∷ b's' ∷ [];
}

abbrev files : Files ssl toml
files = (default_path, conf) ∷ []

conf_read : read_configuration ssl toml writable default_path files ≡ ok conf
unfolding read_configuration Map.get
conf_read = ground arith

abbrev fresh : Configuration ssl
fresh = record {
  id = record { identifier = record { bytes = replicate 32 7 }; key = 5 ∷ []; cert = 5 ∷ [] };
  pib = record { peers = [] };
  relays = [];
  port = 0;
  ctl_socket = to_string (record { bytes = replicate 32 7 });
}

fresh_generated : new_configuration ssl [] [] ≡ ok fresh
unfolding new_configuration generate clone uip.Data.Identifier.from_public_key to_string
    uip.Data.Identifier.hex_text uip.Data.PeerInformationBase.new
fresh_generated = refl

abbrev missing : Matches
missing = record { config = some (b'x' ∷ []); generate_config = false }

digits : All IsDigit (b'8' ∷ b'0' ∷ [])
digits = ((omega arith, omega arith), ((omega arith, omega arith), tt))

alice-IsIdentifier : IsIdentifier alice
alice-IsIdentifier = record { full = refl; each = alice-byte }

eighty : value 0 (b'8' ∷ b'0' ∷ []) < 65536
unfolding value
eighty = omega arith

main-connects_example :
    Arguments.main (record {
      socket = some (b's' ∷ []);
      port = some (b'8' ∷ b'0' ∷ []);
      listen = false;
      remote_id = some (to_string alice);
    })
    ≡ connects (b's' ∷ []) alice (value 0 (b'8' ∷ b'0' ∷ []))
main-connects_example =
    main-connects (b's' ∷ []) b'8' (b'0' ∷ []) alice digits eighty alice-IsIdentifier
