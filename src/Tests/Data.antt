-- ===== src/Tests/Data.antt =====
-- Identifiers, identities, the peer information base and discovery.
use uip.Base.{
  ◌≡◌, ◌↔◌, refl, List, [], ◌∷◌, none, some, Bool, true, false, ok, err, length, replicate, arith,
  Elem,
}
use uip.Data.Address.{SocketAddrV6, v6, v4}
use uip.Data.Identifier
use uip.Data.Identifier.{
  Identifier, IsIdentifier, identifier_key, from_str, to_string, panicked, from_x509_certificate,
}
use uip.Data.Identifier.Text.{from_str-to_string, from_str-IsIdentifier, deserialize_panics}
use uip.Data.Identity.{Identity, Fields, generate, serialize, deserialize}
use uip.Data.Identity.Laws.{deserialize-serialize}
use uip.Discovery.{Interfaces, LocalAddress, discover_addresses}
use uip.Discovery.Results.{Stands, discover_addresses-Elem}
use uip.Tests.Fixtures.{ssl, alice, alice-byte, address, All-replicate}

alice-IsIdentifier : IsIdentifier alice
alice-IsIdentifier = record { full = refl; each = alice-byte }

from_str-to_string_example :
    (from_str (to_string alice) ≡ ok alice) × (Identifier.deserialize (to_string alice) ≡ ok alice)
from_str-to_string_example = from_str-to_string alice alice-IsIdentifier

alice_text : from_str (to_string alice) ≡ ok alice
alice_text = (from_str-to_string alice alice-IsIdentifier).0

from_str-IsIdentifier_example : (length (to_string alice) ≡ 64) × IsIdentifier alice
from_str-IsIdentifier_example = from_str-IsIdentifier (to_string alice) alice alice_text

-- A digit, the two bytes of an accented letter, and digits.
deserialize_panics_example :
    Identifier.deserialize (b'a' ∷ 195 ∷ 169 ∷ replicate 61 b'0') ≡ err panicked
deserialize_panics_example =
    deserialize_panics b'a' 195 169 (replicate 61 b'0') (omega arith) (omega arith) (omega arith)
      refl

abbrev pub carol : Identity ssl
carol = record { identifier = record { bytes = replicate 32 7 }; key = 5 ∷ []; cert = 5 ∷ [] }

pub carol_generated : generate ssl ≡ ok carol
unfolding generate Identifier.from_public_key
carol_generated = refl

abbrev carol_fields : Fields ssl
carol_fields = record { identifier = to_string carol.identifier; key = 5 ∷ []; cert = 5 ∷ [] }

carol-IsIdentifier : IsIdentifier carol.identifier
carol-IsIdentifier = record { full = refl; each = All-replicate 32 7 (omega arith) }

carol_serialized : serialize ssl carol ≡ ok carol_fields
unfolding serialize uip.Data.Identity.serialize_key uip.Data.Identity.serialize_certificate
carol_serialized = refl

deserialize-serialize_example : deserialize ssl carol_fields ≡ ok carol
deserialize-serialize_example =
    deserialize-serialize ssl carol carol_fields carol-IsIdentifier carol_serialized

-- Interfaces with one IPv6 address each; `true` is the loopback interface.
abbrev api : Interfaces
api = record {
  Interface = Bool;
  is_loopback = λ i. i;
  is_running = λ i. true;
  name = λ i. 101 ∷ [];
  addresses = λ i. none ∷ some (v4 (record { ip = 1; port = 0 })) ∷ some (v6 address) ∷ [];
}

abbrev found : List LocalAddress
found = uip.Discovery.new (101 ∷ []) address ∷ []

discovered : discover_addresses api (λ ip. true) (ok (true ∷ false ∷ [])) ≡ ok found
unfolding discover_addresses uip.Discovery.collect uip.Discovery.local_addresses
    uip.Discovery.local_address
discovered = refl

discover_addresses-Elem_example : Elem (uip.Discovery.new (101 ∷ []) address) found ↔ (
    (i : Bool) × (a : SocketAddrV6) × Elem i (true ∷ false ∷ [])
    × Stands api (λ ip. true) (uip.Discovery.new (101 ∷ []) address) i a)
discover_addresses-Elem_example =
    discover_addresses-Elem api (λ ip. true) (true ∷ false ∷ []) found
      (uip.Discovery.new (101 ∷ []) address) discovered
