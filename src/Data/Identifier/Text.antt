-- ===== src/Data/Identifier/Text.antt =====
-- The texts of identifiers: printing and parsing are inverse, what else parses, and what panics.
use uip.Base.{
  ℕ, zero, suc, ◌*◌, ◌/◌, ◌%◌, ◌≤◌, ◌<◌, ◌≡◌, ◌≢◌, refl, ap, true, List, [], ◌∷◌, some, ok, err,
  >>=-eq-ok, length, take, drop, All, ◌==◌, inl, inr, Bool-cases, ==_iff, arith, map,
}
use uip.Data.Identifier.{
  Identifier, IsIdentifier, IdentifierError, panicked, to_digit, radix_digits, from_str_radix,
  is_char_boundary, hex_byte, hex_bytes, upper_digit, hex_text, from_str, deserialize, to_string,
  invalid_characters, invalid_value,
}
use uip.Data.Identifier.Hex.{
  upper, to_digit-upper_digit, upper_digit_ascii, is_char_boundary_ascii, from_str_radix_pair,
  from_str_radix_inv, from_str_radix-byte,
}

length-hex_text : (bs : List ℕ) → length (hex_text bs) ≡ 2 * length bs
unfolding hex_text
length-hex_text [] = refl
length-hex_text (b ∷ bs) = omega (arith, length-hex_text bs)

hex_text_boundary : (bs : List ℕ) → All (λ b. b < 256) bs → is_char_boundary (hex_text bs) ≡ true
unfolding hex_text is_char_boundary
hex_text_boundary [] h = refl
hex_text_boundary (b ∷ bs) h = ground (arith, upper_digit_ascii (b / 16))

hex_byte-hex_text :
    (bad : List ℕ → IdentifierError) (b : ℕ) (bs : List ℕ)
    → b < 256
    → All (λ b. b < 256) bs
    → hex_byte bad (hex_text (b ∷ bs)) ≡ ok b
unfolding hex_byte hex_text
hex_byte-hex_text bad b bs h hs =
    rw
      (
        is_char_boundary_ascii (upper_digit (b / 16)) (upper_digit (b % 16) ∷ hex_text bs)
            (upper_digit_ascii (b / 16) (omega arith)).0,
        hex_text_boundary bs hs,
        from_str_radix_pair (upper_digit (b / 16)) (upper_digit (b % 16)) (b / 16) (b % 16)
            (upper_digit_ascii (b / 16) (omega arith)).1
            (to_digit-upper_digit (b / 16) (omega arith))
            (to_digit-upper_digit (b % 16) (omega arith)) (omega arith) (omega arith),
      )
      (ap ok (omega arith))

hex_text_rest : (b : ℕ) (bs : List ℕ) → drop 2 (hex_text (b ∷ bs)) ≡ hex_text bs
unfolding hex_text
hex_text_rest b bs = refl

hex_bytes-hex_text :
    (bad : List ℕ → IdentifierError) (n : ℕ) (bs : List ℕ)
    → length bs ≡ n
    → All (λ b. b < 256) bs
    → hex_bytes bad n (hex_text bs) ≡ ok bs
unfolding hex_bytes
hex_bytes-hex_text bad zero [] l h = refl
hex_bytes-hex_text bad zero (b ∷ bs) l h = absurd (omega arith)
hex_bytes-hex_text bad (suc n) [] l h = absurd (omega arith)
hex_bytes-hex_text bad (suc n) (b ∷ bs) l h =
    rw (hex_byte-hex_text bad b bs h.0 h.1)
      (rw (hex_text_rest b bs) (rw (hex_bytes-hex_text bad n bs (omega arith) h.1)))

-- `from_str` and `deserialize` read back the text that `to_string` writes of any identifier.
pub from_str-to_string :
    (id : Identifier)
    → IsIdentifier id
    → (from_str (to_string id) ≡ ok id) × (deserialize (to_string id) ≡ ok id)
unfolding from_str deserialize to_string
from_str-to_string id h = ground (
  arith,
  length-hex_text id.bytes,
  hex_bytes-hex_text (λ (_ : List ℕ). invalid_characters) 32 id.bytes,
  hex_bytes-hex_text (λ (s : List ℕ). invalid_value s) 32 id.bytes,
)

hex_byte_inv :
    (bad : List ℕ → IdentifierError) (s : List ℕ) (b : ℕ)
    → hex_byte bad s ≡ ok b
    → (is_char_boundary s ≡ true) × (from_str_radix (take 2 s) ≡ some b)
unfolding hex_byte
hex_byte_inv bad s b e = ground arith

hex_bytes_inv :
    (bad : List ℕ → IdentifierError) (n : ℕ) (s bs : List ℕ)
    → hex_bytes bad n s ≡ ok bs
    → length s ≡ 2 * n
    → (length bs ≡ n) × All (λ b. b < 256) bs × (All (λ c. c ≢ b'+') s → hex_text bs ≡ map upper s)
unfolding hex_bytes
hex_bytes_inv bad zero [] bs e l = nil_text bs (cc)
  where
    nil_text :
        (bs : List ℕ)
        → bs ≡ []
        → (length bs ≡ 0) × All (λ b. b < 256) bs × (Unit {0} → hex_text bs ≡ [])
    nil_text bs z = rw z (refl, tt, λ _. unfold hex_text in refl)
hex_bytes_inv bad zero (c ∷ s) bs e l = absurd (omega arith)
hex_bytes_inv bad (suc n) [] bs e l = absurd (omega arith)
hex_bytes_inv bad (suc n) (c ∷ []) bs e l = absurd (omega arith)
hex_bytes_inv bad (suc n) (c ∷ d ∷ s) bs e l =
    let (b, p, q) = >>=-eq-ok (hex_byte bad (c ∷ d ∷ s)) _ e in
    let (bs', p', q') = >>=-eq-ok (hex_bytes bad n s) _ q in
    let (length', each', text') = hex_bytes_inv bad n s bs' p' (omega arith) in
    let (_, r) = hex_byte_inv bad (c ∷ d ∷ s) b p in cons_text b bs' r length' each' text' (cc)
  where
    cons_text :
        (b : ℕ) (bs' : List ℕ)
        → from_str_radix (c ∷ d ∷ []) ≡ some b
        → length bs' ≡ n
        → All (λ b. b < 256) bs'
        → (All (λ c. c ≢ b'+') s → hex_text bs' ≡ map upper s)
        → bs ≡ b ∷ bs'
        → (length bs ≡ suc n)
          × All (λ b. b < 256) bs
          × (All (λ c. c ≢ b'+') (c ∷ d ∷ s) → hex_text bs ≡ map upper (c ∷ d ∷ s))
    cons_text b bs' r length' each' text' z = rw z (
      ap suc length',
      (from_str_radix-byte (c ∷ d ∷ []) b r, each'),
      λ h.
          let (hi, lo) = from_str_radix_inv c d b h.0 r in
          unfold hex_text in cc (hi, lo, text' h.1.1),
    )

from_str_inv :
    (s : List ℕ) (id : Identifier)
    → from_str s ≡ ok id
    → (length s ≡ 64)
      × ((bs : List ℕ) × (hex_bytes (λ _. invalid_characters) 32 s ≡ ok bs) × (bs ≡ id.bytes))
unfolding from_str
from_str_inv s id e = elim (Bool-cases (length s == 64)) [
  | inl t ↦
      let (bs, p, q) =
        >>=-eq-ok (hex_bytes (λ _. invalid_characters) 32 s) _ (rw (t, from_str) at e) in
      ((==_iff (length s) 64).0 t, (bs, p, cc))
  | inr f ↦ let e' = rw (f, from_str) at e in cc
]

from_str_accepted :
    (s : List ℕ) (id : Identifier)
    → from_str s ≡ ok id
    → (length s ≡ 64) × IsIdentifier id × (All (λ c. c ≢ b'+') s → to_string id ≡ map upper s)
unfolding from_str to_string
from_str_accepted s id e =
    let (l, found) = from_str_inv s id e in
    let (bs, p, q) = found in
    let (length', each', text') = hex_bytes_inv (λ _. invalid_characters) 32 s bs p l in
    (l, record { full = rw q at length'; each = rw q at each' }, rw q at text')

-- Every text that `from_str` accepts has 64 bytes and gives 32 bytes below 256.
pub from_str-IsIdentifier :
    (s : List ℕ) (id : Identifier) → from_str s ≡ ok id → (length s ≡ 64) × IsIdentifier id
from_str-IsIdentifier s id e = let (l, h, t) = from_str_accepted s id e in (l, h)

-- If a text that `from_str` accepts holds no plus sign, `to_string` of the result is the text in upper
-- case.
pub to_string-from_str :
    (s : List ℕ) (id : Identifier)
    → from_str s ≡ ok id
    → All (λ c. c ≢ b'+') s
    → to_string id ≡ map upper s
to_string-from_str s id e h = (from_str_accepted s id e).2 h

hex_bytes_plus :
    (e : IdentifierError) (n d : ℕ) (rest : List ℕ)
    → hex_bytes (λ _. e) (suc n) (b'+' ∷ d ∷ rest) ≡ hex_bytes (λ _. e) (suc n) (b'0' ∷ d ∷ rest)
unfolding hex_bytes hex_byte from_str_radix radix_digits is_char_boundary to_digit
hex_bytes_plus e n d rest = refl

-- `from_str` reads a plus sign as the digit zero, at the start of the text.
pub from_str_plus :
    (d : ℕ) (rest : List ℕ) → from_str (b'+' ∷ d ∷ rest) ≡ from_str (b'0' ∷ d ∷ rest)
unfolding from_str
from_str_plus d rest = rw (hex_bytes_plus invalid_characters 31 d rest)

-- A text of 64 bytes whose first character is ASCII and whose second character's bytes lie across
-- the boundary of the first two pairs makes `deserialize` panic.
pub deserialize_panics :
    (a b c : ℕ) (rest : List ℕ)
    → a < 128
    → 128 ≤ c
    → c < 192
    → length rest ≡ 61
    → deserialize (a ∷ b ∷ c ∷ rest) ≡ err panicked
unfolding deserialize hex_bytes hex_byte is_char_boundary
deserialize_panics a b c rest ha hc hc' l = ground arith

boundary_ascii : (s : List ℕ) → All (λ c. c < 128) s → is_char_boundary s ≡ true
unfolding is_char_boundary
boundary_ascii [] h = refl
boundary_ascii (c ∷ s) h = ground arith

All-drop_two : (s : List ℕ) → All (λ c. c < 128) s → All (λ c. c < 128) (drop 2 s)
All-drop_two [] h = tt
All-drop_two (c ∷ []) h = tt
All-drop_two (c ∷ d ∷ s) h = h.1.1

hex_byte_ascii :
    (bad : List ℕ → IdentifierError) (s : List ℕ)
    → ((t : List ℕ) → bad t ≢ panicked)
    → All (λ c. c < 128) s
    → hex_byte bad s ≢ err panicked
unfolding hex_byte
hex_byte_ascii bad s hb h =
    ground (arith, boundary_ascii s h, boundary_ascii (drop 2 s) (All-drop_two s h), hb (take 2 s))

hex_bytes_ascii :
    (bad : List ℕ → IdentifierError) (n : ℕ) (s : List ℕ)
    → ((t : List ℕ) → bad t ≢ panicked)
    → All (λ c. c < 128) s
    → hex_bytes bad n s ≢ err panicked
unfolding hex_bytes
hex_bytes_ascii bad zero s hb h = λ e. cc
hex_bytes_ascii bad (suc n) s hb h =
    ground
      (arith, hex_byte_ascii bad s hb h, hex_bytes_ascii bad n (drop 2 s) hb (All-drop_two s h))

-- On ASCII texts neither `from_str` nor `deserialize` panics.
pub from_str_ascii :
    (s : List ℕ)
    → All (λ c. c < 128) s
    → (from_str s ≢ err panicked) × (deserialize s ≢ err panicked)
unfolding from_str deserialize
from_str_ascii s h = (
  ground (arith, hex_bytes_ascii (λ _. invalid_characters) 32 s (λ t e. cc) h),
  ground (arith, hex_bytes_ascii (λ t. invalid_value t) 32 s (λ t e. cc) h),
)
