-- ===== src/Data/Identity/Laws.antt =====
-- Identities: the certificate leads back to the identifier, and copies are exact.
use uip.Base.{◌≡◌, ℕ, List, ok, >>=-eq-ok, Ensures, Ensures-bind, Ensures-eq, ◌*◌}
use uip.Data.Openssl.{Openssl}
use uip.Data.Identifier.{Identifier, IsIdentifier, from_public_key, from_x509_certificate}
use uip.Data.Identifier.Text.{from_str-to_string}
use uip.Data.Identity.{
  Identity, generate, clone, Fields, serialize, deserialize, serialize_key, serialize_certificate,
  deserialize_key, deserialize_certificate, or_bad, or_panic,
}

module _ (ssl : Openssl) where
  open ssl use {
    PublicKey, rsa_generate, common_name, days_from_now, builder, public_half, set_version,
    set_not_before, set_not_after, set_subject_name, set_issuer_name, set_pubkey, sign, build,
  }

  from_public_key-IsIdentifier :
      (k : PublicKey) (id : Identifier) → from_public_key ssl k ≡ ok id → IsIdentifier id
  unfolding from_public_key
  from_public_key-IsIdentifier k id e =
      let (der, p, q) = >>=-eq-ok (ssl.public_key_to_der k) _ e in
      let z : ssl.sha256 der ≡ id.bytes = cc in
      record { full = rw z at (ssl.length-sha256 der); each = rw z at (ssl.sha256-byte der) }

  abbrev Leads : Identity ssl → Type 0
  Leads id = (from_x509_certificate ssl id.cert ≡ ok id.identifier) × IsIdentifier id.identifier

  generate-Leads : Ensures Leads (generate ssl)
  unfolding generate from_x509_certificate
  generate-Leads = Ensures-bind Leads rsa_generate _ λ key _.
      Ensures-bind Leads (from_public_key ssl (public_half key)) _ λ identifier p.
        Ensures-bind Leads (common_name _) _ λ name _.
          Ensures-bind Leads (days_from_now 0) _ λ before _.
            Ensures-bind Leads (days_from_now (356 * 2)) _ λ after _.
              Ensures-bind Leads builder _ λ b0 _. Ensures-bind Leads (set_version 2 b0) _ λ b1 _.
                Ensures-bind Leads (set_not_before before b1) _ λ b2 _.
                  Ensures-bind Leads (set_not_after after b2) _ λ b3 _.
                    Ensures-bind Leads (set_subject_name name b3) _ λ b4 _.
                      Ensures-bind Leads (set_issuer_name name b4) _ λ b5 _.
                        Ensures-bind Leads (set_pubkey (public_half key) b5) _ λ b6 q.
                          Ensures-bind Leads (sign key b6) _ λ b7 r. (
                            rw (ssl.public_key-build (public_half key) key b5 b6 b7 q r) p,
                            from_public_key-IsIdentifier (public_half key) identifier p,
                          )

  -- Whenever `generate` succeeds, the identifier that a peer computes from the certificate is the
  -- identity's own, and it has 32 bytes.
  pub generate-from_x509_certificate :
      (id : Identity ssl)
      → generate ssl ≡ ok id
      → (from_x509_certificate ssl id.cert ≡ ok id.identifier) × IsIdentifier id.identifier
  generate-from_x509_certificate id e = Ensures-eq Leads (generate ssl) generate-Leads e

  -- If the key can be written as PEM, `clone` gives the same identity.
  clone_lem :
      (id : Identity ssl) (pem : List ℕ)
      → ssl.private_key_to_pem id.key ≡ ok pem
      → clone ssl id ≡ ok id
  unfolding clone
  clone_lem id pem e = rw e (rw (ssl.private_key-pem id.key pem e))

  -- An identity with a 32-byte identifier is read back from the fields that `serialize` wrote.
  pub deserialize-serialize :
      (id : Identity ssl) (f : Fields ssl)
      → IsIdentifier id.identifier
      → serialize ssl id ≡ ok f
      → deserialize ssl f ≡ ok id
  unfolding serialize deserialize or_bad or_panic serialize_key serialize_certificate
      deserialize_key deserialize_certificate
  deserialize-serialize id f h e =
      Ensures-eq (λ f. deserialize ssl f ≡ ok id) (serialize ssl id) written e
    where
      written : Ensures (λ f. deserialize ssl f ≡ ok id) (serialize ssl id)
      written = Ensures-bind _ (ssl.private_key_to_pem id.key) _ λ key p.
          Ensures-bind _ (ssl.x509_to_pem id.cert) _ λ cert q.
            rw ((from_str-to_string id.identifier h).1)
              (rw (ssl.private_key-pem id.key key p) (rw (ssl.x509-pem id.cert cert q)))
