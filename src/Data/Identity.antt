-- ===== src/Data/Identity.antt =====
-- data/identity.rs: a key pair, its self-signed certificate and the identifier of its public key.
pub mod Laws
use uip.Base.{ℕ, ◌*◌, List, Result, ok, err, ◌>>=◌}
use uip.Data.Openssl.{Openssl}
use uip.Data.Identifier.{Identifier, IdentifierError, from_public_key, to_string}
use uip.Data.Identifier

module _ (ssl : Openssl) where
  open ssl use {
    ErrorStack, PrivateKey, X509, public_half, rsa_generate, common_name, days_from_now, builder,
    set_version, set_not_before, set_not_after, set_subject_name, set_issuer_name, set_pubkey, sign,
    build, private_key_to_pem, private_key_from_pem, x509_to_pem, x509_from_pem,
  }

  pub record Identity : Type 0 where
    pub identifier : Identifier
    pub key : PrivateKey
    pub cert : X509

  unfoldable pub generate : Result Identity ErrorStack
  generate = do
    private_key ← rsa_generate
    identifier ← from_public_key ssl (public_half private_key)
    x509_name ← common_name (to_string identifier)
    not_before ← days_from_now 0
    not_after ← days_from_now (356 * 2)
    b0 ← builder
    b1 ← set_version 2 b0
    b2 ← set_not_before not_before b1
    b3 ← set_not_after not_after b2
    b4 ← set_subject_name x509_name b3
    b5 ← set_issuer_name x509_name b4
    b6 ← set_pubkey (public_half private_key) b5
    b7 ← sign private_key b6
    ok (record { identifier = identifier; key = private_key; cert = build b7 })

  -- `Clone`: an error is the panic of one of the two `expect`s.
  unfoldable pub clone : Identity → Result Identity ErrorStack
  clone id = do
    pem ← private_key_to_pem id.key
    key ← private_key_from_pem pem
    ok (record { identifier = id.identifier; key = key; cert = id.cert })

  -- `serialize_certificate`, `serialize_key` and their inverses write and read PEM texts, which are
  -- ASCII; an error is the panic of an `unwrap`.
  unfoldable pub serialize_certificate : X509 → Result (List ℕ) ErrorStack
  serialize_certificate x509 = x509_to_pem x509

  unfoldable pub deserialize_certificate : List ℕ → Result X509 ErrorStack
  deserialize_certificate string = x509_from_pem string

  unfoldable pub serialize_key : PrivateKey → Result (List ℕ) ErrorStack
  serialize_key pkey = private_key_to_pem pkey

  unfoldable pub deserialize_key : List ℕ → Result PrivateKey ErrorStack
  deserialize_key string = private_key_from_pem string

  pub record Fields : Type 0 where
    pub identifier : List ℕ
    pub key : List ℕ
    pub cert : List ℕ

  pub data IdentityError : Type 0 where
    bad_identifier : IdentifierError → IdentityError
    panic : ErrorStack → IdentityError

  unfoldable pub or_panic : {A : Type 0} → Result A ErrorStack → Result A IdentityError
  or_panic (ok a) = ok a
  or_panic (err e) = err (panic e)

  unfoldable pub or_bad : {A : Type 0} → Result A IdentifierError → Result A IdentityError
  or_bad (ok a) = ok a
  or_bad (err e) = err (bad_identifier e)

  -- The derived `Serialize` and `Deserialize`, field by field in their order.
  unfoldable pub serialize : Identity → Result Fields ErrorStack
  serialize id = do
    key ← serialize_key id.key
    cert ← serialize_certificate id.cert
    ok (record { identifier = to_string id.identifier; key = key; cert = cert })

  unfoldable pub deserialize : Fields → Result Identity IdentityError
  deserialize f = do
    identifier ← or_bad (Identifier.deserialize f.identifier)
    key ← or_panic (deserialize_key f.key)
    cert ← or_panic (deserialize_certificate f.cert)
    ok (record { identifier = identifier; key = key; cert = cert })
