-- ===== src/Data/Identifier/Hex.antt =====
-- Facts about hexadecimal digits and bytes, for the texts of identifiers.
use uip.Base.{
  ℕ, ◌+◌, ◌-◌, ◌*◌, ◌/◌, ◌%◌, ◌<◌, ◌≡◌, ◌≢◌, true, ◌&&◌, List, [], ◌∷◌, some, leb, if◌then◌else◌,
  inl, inr, Option-cases, arith,
}
use uip.Data.Identifier.{to_digit, radix_digits, from_str_radix, is_char_boundary, upper_digit}

-- The digit in upper case, other bytes unchanged.
abbrev pub upper : ℕ → ℕ
upper c = if leb b'a' c && leb c b'f' then c - 32 else c

pub to_digit-upper_digit : (n : ℕ) → n < 16 → to_digit (upper_digit n) ≡ some n
unfolding to_digit upper_digit
to_digit-upper_digit n h = ground arith

pub upper_digit-to_digit : (c d : ℕ) → to_digit c ≡ some d → (upper_digit d ≡ upper c) × (d < 16)
unfolding to_digit upper_digit
upper_digit-to_digit c d h = ground arith

pub upper_digit_ascii : (n : ℕ) → n < 16 → (upper_digit n < 128) × (upper_digit n ≢ b'+')
unfolding upper_digit
upper_digit_ascii n h = ground arith

pub is_char_boundary_ascii : (c : ℕ) (r : List ℕ) → c < 128 → is_char_boundary (c ∷ r) ≡ true
unfolding is_char_boundary
is_char_boundary_ascii c r h = ground arith

-- Two digits that do not begin with a plus sign.
pub from_str_radix_pair :
    (c d a b : ℕ)
    → c ≢ b'+'
    → to_digit c ≡ some a
    → to_digit d ≡ some b
    → a < 16
    → b < 16
    → from_str_radix (c ∷ d ∷ []) ≡ some (a * 16 + b)
unfolding from_str_radix radix_digits
from_str_radix_pair c d a b h p q ha hb = ground arith

pub from_str_radix_inv :
    (c d v : ℕ)
    → c ≢ b'+'
    → from_str_radix (c ∷ d ∷ []) ≡ some v
    → (upper_digit (v / 16) ≡ upper c) × (upper_digit (v % 16) ≡ upper d)
unfolding from_str_radix radix_digits
from_str_radix_inv c d v h e = elim (Option-cases (to_digit c)) [
  | inl p ↦ absurd (ground arith)
  | inr (a, p) ↦ elim (Option-cases (to_digit d)) [
    | inl q ↦ absurd (ground arith)
    | inr (b, q) ↦
        let (ua, la) = upper_digit-to_digit c a p in
        let (ub, lb) = upper_digit-to_digit d b q in
        let v_eq : v ≡ a * 16 + b = ground arith in
        let hi : v / 16 ≡ a = omega arith in
        let lo : v % 16 ≡ b = omega arith in (rw (hi) ua, rw (lo) ub)
  ]
]

pub radix_digits-byte :
    (cs : List ℕ) (acc v : ℕ) → acc < 256 → radix_digits acc cs ≡ some v → v < 256
unfolding radix_digits
radix_digits-byte [] acc v h e = ground arith
radix_digits-byte (c ∷ cs) acc v h e = elim (Option-cases (to_digit c)) [
  | inl p ↦ absurd (ground arith)
  | inr (d, p) ↦ ground (arith, radix_digits-byte cs (acc * 16 + d) v)
]

pub from_str_radix-byte : (cs : List ℕ) (v : ℕ) → from_str_radix cs ≡ some v → v < 256
unfolding from_str_radix
from_str_radix-byte [] v e = cc
from_str_radix-byte (c ∷ []) v e = radix_digits-byte (c ∷ []) 0 v (omega arith) e
from_str_radix-byte (c ∷ d ∷ cs) v e =
    ground (arith, radix_digits-byte (d ∷ cs) 0 v, radix_digits-byte (c ∷ d ∷ cs) 0 v)
