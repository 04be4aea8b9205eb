-- ===== src/Base/Outcome.antt =====
-- Rust's `Result`, and the kinds of `std::io::Error` that the program builds or passes on.
use mathlib.Core.Option.{Option, none, some}
use mathlib.Core.Path.{◌≡◌, refl}

pub data Result {ℓ κ} (A : Type ℓ) (E : Type κ) : Type (ℓ ⊔ κ) where
  ok : A → Result A E
  err : E → Result A E

infixl 5 ◌>>=◌
-- The `?` operator.
abbrev pub ◌>>=◌ {ℓ κ μ} :
    {A : Type ℓ} {B : Type κ} {E : Type μ} → Result A E → (A → Result B E) → Result B E
ok a >>= f = f a
err e >>= f = err e

abbrev pub ok_or {ℓ κ} : {A : Type ℓ} {E : Type κ} → E → Option A → Result A E
ok_or e none = err e
ok_or e (some a) = ok a

-- `std::io::ErrorKind`: the messages of the errors are not modelled.
pub data ErrorKind : Type 0 where
  not_found not_connected connection_aborted invalid_input invalid_data other : ErrorKind

-- Where `?` came through, what it was applied to had a value, and the rest succeeded on it.
pub >>=-eq-ok {κ ℓ μ} :
    {E : Type μ} {S : Type κ} {T : Type ℓ} {t : T} (first : Result S E) (rest : S → Result T E)
    → (first >>= rest) ≡ ok t
    → (s : S) × (first ≡ ok s) × (rest s ≡ ok t)
>>=-eq-ok (err k) rest e = cc
>>=-eq-ok (ok s) rest e = (s, refl, e)

-- `P` holds of the value, if there is one.
abbrev pub Ensures {ℓ κ μ} : {A : Type ℓ} {E : Type κ} → (A → Type μ) → Result A E → Type μ
Ensures P (ok a) = P a
Ensures P (err e) = Unit

pub Ensures-bind {ℓ κ μ ν} :
    {A : Type ℓ} {B : Type κ} {E : Type μ} (P : B → Type ν) (m : Result A E) (f : A → Result B E)
    → ((a : A) → m ≡ ok a → Ensures P (f a))
    → Ensures P (m >>= f)
Ensures-bind P (ok a) f k = k a refl
Ensures-bind P (err e) f k = tt

pub Ensures-eq {ℓ κ μ} :
    {A : Type ℓ} {E : Type κ} (P : A → Type μ) (m : Result A E) {a : A}
    → Ensures P m
    → m ≡ ok a
    → P a
Ensures-eq P m h e = rw e at h
