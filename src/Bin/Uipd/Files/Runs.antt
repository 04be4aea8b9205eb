-- ===== src/Bin/Uipd/Files/Runs.antt =====
-- Which files `main` of the daemon changes.
use uip.Base.{ℕ, ◌≡◌, List, none, some, Bool, true, false, err}
use uip.Base.Map
use uip.Data.Identity.{Identity}
use uip.Bin.Uipd.{new_configuration}
use uip.Bin.Uipd.Files.{FileName, file_key, Toml, Matches, default_path, value_or, Files}
use uip.Data.Openssl.{Openssl}

module _ (ssl : Openssl) (toml : Toml ssl) (writable : FileName → Bool) where
  -- The file of the configuration.
  abbrev pub path_of : Matches → FileName
  path_of matches = value_or default_path matches.config

  -- There is nothing to write: no identity can be generated, the file does not exist, or it holds no
  -- configuration.
  pub data Fails (prefix suffix : List ℕ) (matches : Matches) (files : Files ssl toml)
      : Type 0 where
    no_identity :
        (e : ssl.ErrorStack)
        → matches.generate_config ≡ true
        → new_configuration ssl prefix suffix ≡ err e
        → Fails prefix suffix matches files
    no_configuration :
        matches.generate_config ≡ false
        → Map.get (path_of matches) files ≡ none
        → Fails prefix suffix matches files
    bad_configuration :
        (t : toml.Text) (e : Unit {0})
        → matches.generate_config ≡ false
        → Map.get (path_of matches) files ≡ some t
        → toml.from_str t ≡ err e
        → Fails prefix suffix matches files
