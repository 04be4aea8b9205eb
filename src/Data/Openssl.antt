-- ===== src/Data/Openssl.antt =====
-- What data/ and network/transport/socket.rs use of the crate `openssl`. A call that can fail
-- returns a `Result` over the library's error stack.
use uip.Base.{ℕ, ◌<◌, ◌≡◌, List, Result, ok, length, All}

pub record Openssl : Type 1 where
  pub ErrorStack : Type 0
  pub PublicKey : Type 0
  pub PrivateKey : Type 0
  pub X509 : Type 0
  pub X509Builder : Type 0
  pub X509Name : Type 0
  pub Asn1Time : Type 0
  -- `key.public_key_to_der()`, where a private key counts as its public half
  pub public_half : PrivateKey → PublicKey
  pub public_key_to_der : PublicKey → Result (List ℕ) ErrorStack
  pub sha256 : List ℕ → List ℕ
  -- `Rsa::generate(2048)` and `PKey::from_rsa`
  pub rsa_generate : Result PrivateKey ErrorStack
  pub common_name : List ℕ → Result X509Name ErrorStack
  pub days_from_now : ℕ → Result Asn1Time ErrorStack
  pub builder : Result X509Builder ErrorStack
  pub set_version : ℕ → X509Builder → Result X509Builder ErrorStack
  pub set_not_before : Asn1Time → X509Builder → Result X509Builder ErrorStack
  pub set_not_after : Asn1Time → X509Builder → Result X509Builder ErrorStack
  pub set_subject_name : X509Name → X509Builder → Result X509Builder ErrorStack
  pub set_issuer_name : X509Name → X509Builder → Result X509Builder ErrorStack
  pub set_pubkey : PublicKey → X509Builder → Result X509Builder ErrorStack
  pub sign : PrivateKey → X509Builder → Result X509Builder ErrorStack
  pub build : X509Builder → X509
  pub public_key : X509 → Result PublicKey ErrorStack
  -- PEM texts as bytes
  pub private_key_to_pem : PrivateKey → Result (List ℕ) ErrorStack
  pub private_key_from_pem : List ℕ → Result PrivateKey ErrorStack
  pub x509_to_pem : X509 → Result (List ℕ) ErrorStack
  pub x509_from_pem : List ℕ → Result X509 ErrorStack
  -- A SHA-256 digest is 32 bytes.
  pub length-sha256 : (m : List ℕ) → length (sha256 m) ≡ 32
  pub sha256-byte : (m : List ℕ) → All (λ b. b < 256) (sha256 m)
  -- A certificate carries the public key that it was given before it was signed.
  pub public_key-build :
      (k : PublicKey) (p : PrivateKey) (b b' b'' : X509Builder)
      → set_pubkey k b ≡ ok b'
      → sign p b' ≡ ok b''
      → public_key (build b'') ≡ ok k
  -- PEM is read back.
  pub private_key-pem :
      (k : PrivateKey) (t : List ℕ) → private_key_to_pem k ≡ ok t → private_key_from_pem t ≡ ok k
  pub x509-pem : (c : X509) (t : List ℕ) → x509_to_pem c ≡ ok t → x509_from_pem t ≡ ok c
