-- ===== src/Data/Identifier.antt =====
-- data/identifier.rs: the 32-byte identifier of a peer, and its text of 64 hexadecimal digits.
-- A `&str` is the list of its UTF-8 bytes.
pub mod Hex
pub mod Text
use uip.Base.{
  ℕ, zero, suc, ◌+◌, ◌-◌, ◌*◌, ◌/◌, ◌%◌, ◌<◌, ◌≡◌, Bool, true, false, not, ◌&&◌, List, [], ◌∷◌,
  ◌++◌, Option, none, some, Result, ok, err, ◌>>=◌, length, take, drop, replicate, All, ltb, leb,
  ◌==◌, if◌then◌else◌, ℕ_discrete, ite, ok_or,
}
use uip.Base.Map.{Key, eq?}
use uip.Data.Openssl.{Openssl}

abbrev pub identifier_length : ℕ
identifier_length = 32

pub record Identifier : Type 0 where
  pub bytes : List ℕ

pub Identifier-discrete : Discrete Identifier
Identifier-discrete = hlevel ℕ_discrete

instance abbrev pub identifier_key : Key Identifier
identifier_key = record { dec = Identifier-discrete }

-- `[u8; IDENTIFIER_LENGTH]`
pub record IsIdentifier (id : Identifier) : Type 0 where
  pub full : length id.bytes ≡ identifier_length
  pub each : All (λ b. b < 256) id.bytes

-- The errors of this file; `panicked` stands for a panic of `&string[a..b]`, which is no `Err`.
pub data IdentifierError : Type 0 where
  insufficient_length invalid_characters panicked : IdentifierError
  invalid_length : ℕ → IdentifierError
  invalid_value : List ℕ → IdentifierError

abbrev pub default : Identifier
default = record { bytes = replicate identifier_length 0 }

unfoldable pub copy_from_slice : List ℕ → Result Identifier IdentifierError
copy_from_slice slice =
    if ltb (length slice) identifier_length
    then err insufficient_length
    else ok (record { bytes = take identifier_length slice })

unfoldable pub len : Identifier → ℕ
len id = length id.bytes

unfoldable pub as_bytes : Identifier → List ℕ
as_bytes id = id.bytes

unfoldable pub is_empty : Identifier → Bool
is_empty id = elim (Identifier-discrete id default) [ yes _ ↦ true | no _ ↦ false ]

-- `char::to_digit(16)` on an ASCII byte
unfoldable pub to_digit : ℕ → Option ℕ
to_digit c =
    if leb b'0' c && leb c b'9'
    then some (c - b'0')
    else if leb b'a' c && leb c b'f'
    then some (c - b'a' + 10)
    else if leb b'A' c && leb c b'F'
    then some (c - b'A' + 10)
    else none

-- The digits of `u8::from_str_radix(_, 16)`; `none` stands for an invalid digit or an overflow.
unfoldable pub radix_digits : ℕ → List ℕ → Option ℕ
radix_digits acc [] = some acc
radix_digits acc (c ∷ cs) = elim (to_digit c) [
  | none ↦ none
  | some d ↦ if ltb (acc * 16 + d) 256 then radix_digits (acc * 16 + d) cs else none
]

-- `u8::from_str_radix(_, 16)`: the empty text and a single sign are refused, and a leading plus
-- sign is skipped.
unfoldable pub from_str_radix : List ℕ → Option ℕ
from_str_radix [] = none
from_str_radix (c ∷ []) = radix_digits 0 (c ∷ [])
from_str_radix (c ∷ d ∷ cs) =
    if c == b'+' then radix_digits 0 (d ∷ cs) else radix_digits 0 (c ∷ d ∷ cs)

-- `is_char_boundary` at the front of what is left of a text.
unfoldable pub is_char_boundary : List ℕ → Bool
is_char_boundary [] = true
is_char_boundary (c ∷ cs) = not (leb 128 c && ltb c 192)

-- `u8::from_str_radix(&string[i * 2..i * 2 + 2], 16)` on the text from `i * 2` on.
unfoldable pub hex_byte : (List ℕ → IdentifierError) → List ℕ → Result ℕ IdentifierError
hex_byte bad string =
    if is_char_boundary string && is_char_boundary (drop 2 string)
    then ok_or (bad (take 2 string)) (from_str_radix (take 2 string))
    else err panicked

-- The loop `for i in 0..n` over the text from `i * 2` on.
unfoldable pub hex_bytes : (List ℕ → IdentifierError) → ℕ → List ℕ → Result (List ℕ) IdentifierError
hex_bytes bad zero string = ok []
hex_bytes bad (suc n) string = do
  byte ← hex_byte bad string
  rest ← hex_bytes bad n (drop 2 string)
  ok (byte ∷ rest)

unfoldable pub from_str : List ℕ → Result Identifier IdentifierError
from_str string =
    if length string == 2 * identifier_length
    then (hex_bytes (λ _. invalid_characters) 32 string >>= λ ident. ok (record { bytes = ident }))
    else err insufficient_length

-- `Deserialize`, behind `String::deserialize`
unfoldable pub deserialize : List ℕ → Result Identifier IdentifierError
deserialize string =
    if length string == 2 * identifier_length
    then (hex_bytes (λ s. invalid_value s) identifier_length string >>= λ ident.
        ok (record { bytes = ident }))
    else err (invalid_length (length string))

-- One digit of `{:02X}`
unfoldable pub upper_digit : ℕ → ℕ
upper_digit n = if ltb n 10 then b'0' + n else b'A' + (n - 10)

unfoldable pub hex_text : List ℕ → List ℕ
hex_text [] = []
hex_text (b ∷ bs) = upper_digit (b / 16) ∷ upper_digit (b % 16) ∷ hex_text bs

-- `Display`, and the text that `Serialize` writes
unfoldable pub to_string : Identifier → List ℕ
to_string id = hex_text id.bytes

unfoldable pub debug : Identifier → List ℕ
unfolding to_string
debug id = to_string id

-- `Serialize`: the text that is given to the serialiser.
unfoldable pub serialize : Identifier → List ℕ
unfolding to_string
serialize id = to_string id

module _ (ssl : Openssl) where
  open ssl use {ErrorStack, PublicKey, X509, public_key_to_der, sha256, public_key}

  unfoldable pub from_public_key : PublicKey → Result Identifier ErrorStack
  from_public_key key = do
    pub_key_der ← public_key_to_der key
    ok (record { bytes = sha256 pub_key_der })

  unfoldable pub from_x509_certificate : X509 → Result Identifier ErrorStack
  from_x509_certificate x509 = do pub_key ← public_key x509; from_public_key pub_key
