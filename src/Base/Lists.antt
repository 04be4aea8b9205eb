-- ===== src/Base/Lists.antt =====
-- Lists measured and indexed by native numbers, under the library's names.
use Prim.Native.Nat.{ℕ, zero, suc, ◌+◌, ◌-◌, ◌≤◌, min}
use mathlib.Core.Path.{◌≡◌, refl, ap}
use mathlib.Core.List.{List, [], ◌∷◌, ◌++◌}
use mathlib.Core.Logic.{◌⊎◌, inl, inr}
use mathlib.Core.Option.{Option, none, some}
use native.Mathlib.Omega.{arith}

module _ {ℓ} {A : Type ℓ} where
  abbrev pub length : List A → ℕ
  length [] = 0
  length (x ∷ xs) = suc (length xs)

  abbrev pub take : ℕ → List A → List A
  take zero xs = []
  take (suc n) [] = []
  take (suc n) (x ∷ xs) = x ∷ take n xs

  abbrev pub drop : ℕ → List A → List A
  drop zero xs = xs
  drop (suc n) [] = []
  drop (suc n) (x ∷ xs) = drop n xs

  abbrev pub replicate : ℕ → A → List A
  replicate zero a = []
  replicate (suc n) a = a ∷ replicate n a

  -- `slice.first()`
  abbrev pub first : List A → Option A
  first [] = none
  first (x ∷ xs) = some x

  -- A predicate of every element, by recursion, so that the tactics take it apart.
  abbrev pub All {κ} : (A → Type κ) → List A → Type κ
  All P [] = Unit {κ}
  All P (x ∷ xs) = P x × All P xs

  pub length-append : (xs ys : List A) → length (xs ++ ys) ≡ length xs + length ys
  length-append [] ys = omega arith
  length-append (x ∷ xs) ys = omega (arith, length-append xs ys)

  pub length-take : (n : ℕ) (xs : List A) → length (take n xs) ≡ min n (length xs)
  length-take zero xs = omega arith
  length-take (suc n) [] = omega arith
  length-take (suc n) (x ∷ xs) = omega (arith, length-take n xs)

  pub length-drop : (n : ℕ) (xs : List A) → length (drop n xs) ≡ length xs - n
  length-drop zero xs = omega arith
  length-drop (suc n) [] = omega arith
  length-drop (suc n) (x ∷ xs) = omega (arith, length-drop n xs)

  pub length-replicate : (n : ℕ) (a : A) → length (replicate n a) ≡ n
  length-replicate zero a = refl
  length-replicate (suc n) a = ap suc (length-replicate n a)

  pub take-append-drop : (n : ℕ) (xs : List A) → take n xs ++ drop n xs ≡ xs
  take-append-drop zero xs = refl
  take-append-drop (suc n) [] = refl
  take-append-drop (suc n) (x ∷ xs) = rw (take-append-drop n xs)

  pub take-append_le : (n : ℕ) (xs ys : List A) → n ≤ length xs → take n (xs ++ ys) ≡ take n xs
  take-append_le zero xs ys h = refl
  take-append_le (suc n) [] ys h = absurd (omega arith)
  take-append_le (suc n) (x ∷ xs) ys h = ap (◌∷◌ x) (take-append_le n xs ys (omega arith))

  pub drop-append_le :
      (n : ℕ) (xs ys : List A) → n ≤ length xs → drop n (xs ++ ys) ≡ drop n xs ++ ys
  drop-append_le zero xs ys h = refl
  drop-append_le (suc n) [] ys h = absurd (omega arith)
  drop-append_le (suc n) (x ∷ xs) ys h = drop-append_le n xs ys (omega arith)

  pub take-length-append : (xs ys : List A) → take (length xs) (xs ++ ys) ≡ xs
  take-length-append [] ys = refl
  take-length-append (x ∷ xs) ys = ap (◌∷◌ x) (take-length-append xs ys)

  pub drop-length-append : (xs ys : List A) → drop (length xs) (xs ++ ys) ≡ ys
  drop-length-append [] ys = refl
  drop-length-append (x ∷ xs) ys = drop-length-append xs ys

-- `x` is an element of the list.
pub data Elem {ℓ} {A : Type ℓ} (x : A) : List A → Type ℓ where
  here : {xs : List A} → Elem x (x ∷ xs)
  there : {y : A} {xs : List A} → Elem x xs → Elem x (y ∷ xs)

module _ {ℓ} {A : Type ℓ} where
  pub not-Elem-nil : {x : A} → Elem x [] → ⊥
  not-Elem-nil e = elim e [ ]

  pub Elem-cons : {x y : A} {xs : List A} → Elem x (y ∷ xs) → (x ≡ y) ⊎ Elem x xs
  Elem-cons here = inl refl
  Elem-cons (there e) = inr e

  pub Elem-head : {x y : A} {xs : List A} → x ≡ y → Elem x (y ∷ xs)
  Elem-head p = rw p here

  pub Elem-append_left : {x : A} {xs : List A} (ys : List A) → Elem x xs → Elem x (xs ++ ys)
  Elem-append_left ys here = here
  Elem-append_left ys (there e) = there (Elem-append_left ys e)

  pub Elem-append_right : {x : A} (xs : List A) {ys : List A} → Elem x ys → Elem x (xs ++ ys)
  Elem-append_right [] e = e
  Elem-append_right (y ∷ xs) e = there (Elem-append_right xs e)

  pub Elem-append : {x : A} (xs ys : List A) → Elem x (xs ++ ys) → Elem x xs ⊎ Elem x ys
  Elem-append [] ys e = inr e
  Elem-append (y ∷ xs) ys here = inl here
  Elem-append (y ∷ xs) ys (there e) = elim (Elem-append xs ys e) [
    | inl l ↦ inl (there l)
    | inr r ↦ inr r
  ]

  pub All-Elem {κ} : (P : A → Type κ) {x : A} (xs : List A) → All P xs → Elem x xs → P x
  All-Elem P [] h e = elim e [ ]
  All-Elem P (y ∷ xs) h here = h.0
  All-Elem P (y ∷ xs) h (there e) = All-Elem P xs h.1 e
