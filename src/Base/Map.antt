-- ===== src/Base/Map.antt =====
-- `std::collections::HashMap`: an association list. The order of its entries stands for the
-- table's order of iteration; Network/Interleaved.antt lets it change between any two steps.
use mathlib.Core.Logic.{ite, ◌≢◌, ◌⊎◌, inl, inr}
use mathlib.Core.Path.{◌≡◌, refl}
use mathlib.Core.List.{List, [], ◌∷◌}
use mathlib.Core.Option.{Option, none, some}
use native.Mathlib.Omega.{arith}

-- The keys of a map: `Eq` and `Hash` in the source.
pub record Key {ℓ} (K : Type ℓ) : Type ℓ where
  pub dec : Discrete K

abbrev pub eq? {ℓ} : {K : Type ℓ} ⦃k : Key K⦄ → Discrete K
eq? ⦃k⦄ = k.dec

abbrev pub Map {ℓ κ} : Type ℓ → Type κ → Type (ℓ ⊔ κ)
Map K V = List (K × V)

module _ {ℓ κ} {K : Type ℓ} {V : Type κ} where
  abbrev pub keys : Map K V → List K
  keys [] = []
  keys ((k, v) ∷ m) = k ∷ keys m

  abbrev pub values : Map K V → List V
  values [] = []
  values ((k, v) ∷ m) = v ∷ values m

module _ {ℓ} {K V : Type ℓ} ⦃d : Key K⦄ where
  unfoldable pub get : K → Map K V → Option V
  get k [] = none
  get k ((j, v) ∷ m) = ite (eq? j k) (some v) (get k m)

  -- A key that is there keeps its place and gets the new value.
  unfoldable pub insert : K → V → Map K V → Map K V
  insert k v [] = (k, v) ∷ []
  insert k v ((j, w) ∷ m) = ite (eq? j k) ((k, v) ∷ m) ((j, w) ∷ insert k v m)

  unfoldable pub remove : K → Map K V → Map K V
  remove k [] = []
  remove k ((j, w) ∷ m) = ite (eq? j k) (remove k m) ((j, w) ∷ remove k m)

  pub get-insert :
      (k j : K) (v : V) (m : Map K V) → get j (insert k v m) ≡ ite (eq? k j) (some v) (get j m)
  unfolding get insert
  get-insert k j v [] = refl
  get-insert k j v ((i, w) ∷ m) = ground (arith, get-insert k j v m)

  pub get-insert_self : (k : K) (v : V) (m : Map K V) → get k (insert k v m) ≡ some v
  get-insert_self k v m = ground (arith, get-insert k k v m)

  pub get-insert_ne : (k j : K) (v : V) (m : Map K V) → k ≢ j → get j (insert k v m) ≡ get j m
  get-insert_ne k j v m h = ground (arith, get-insert k j v m)

  pub get-remove : (k j : K) (m : Map K V) → get j (remove k m) ≡ ite (eq? k j) none (get j m)
  unfolding get remove
  get-remove k j [] = ground arith
  get-remove k j ((i, w) ∷ m) = ground (arith, get-remove k j m)

  pub get-insert_inv :
      (k j : K) (v u : V) (m : Map K V)
      → get j (insert k v m) ≡ some u
      → ((k ≡ j) × (v ≡ u)) ⊎ (get j m ≡ some u)
  get-insert_inv k j v u m e = elim (eq? k j) [
    | yes p ↦ inl (p, ground (arith, get-insert k j v m))
    | no n ↦ inr (ground (arith, get-insert k j v m))
  ]

  pub get-remove_inv :
      (k j : K) (u : V) (m : Map K V) → get j (remove k m) ≡ some u → get j m ≡ some u
  get-remove_inv k j u m e = ground (arith, get-remove k j m)
