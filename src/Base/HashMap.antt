-- ===== src/Base/HashMap.antt =====
-- `std::collections::HashMap` as an association list, with the laws of each operation used.
pub mod Unique
use mathlib.Core.Path.{◌≡◌}
use mathlib.Core.Logic.{inl, inr}
use mathlib.Core.Bool.{Bool, true}
use mathlib.Core.List.{List, [], ◌∷◌}
use mathlib.Core.Option.{Option, none, some}
use native.Mathlib.Omega.{arith}
use proxec.Base.Tests.{if◌then◌else◌, Bool-cases}
use proxec.Base.Equality.{Eq, ◌==◌, same_refl}

abbrev pub HashMap {ℓ κ} : Type ℓ → Type κ → Type (ℓ ⊔ κ)
HashMap K V = List (K × V)

module _ {ℓ κ} {K : Type ℓ} {V : Type κ} where
  -- `retain(|k, v| p k v)`
  unfoldable pub retain : (K → V → Bool) → HashMap K V → HashMap K V
  retain p [] = []
  retain p ((k, v) ∷ m) = let rest = retain p m in if p k v then (k, v) ∷ rest else rest

module _ {ℓ κ} {K : Type ℓ} {V : Type κ} ⦃e : Eq K⦄ where
  unfoldable pub get : K → HashMap K V → Option V
  get j [] = none
  get j ((k, v) ∷ m) = if k == j then some v else get j m

  unfoldable pub remove : K → HashMap K V → HashMap K V
  remove j [] = []
  remove j ((k, v) ∷ m) = let rest = remove j m in if k == j then rest else (k, v) ∷ rest

  unfoldable pub insert : K → V → HashMap K V → HashMap K V
  unfolding remove
  insert k v m = (k, v) ∷ remove k m

  pub get-remove :
      (j k : K) (m : HashMap K V) → get j (remove k m) ≡ (if k == j then none else get j m)
  unfolding get remove
  get-remove j k [] = elim (Bool-cases (k == j)) [ inl t ↦ rw t | inr f ↦ rw f ]
  get-remove j k ((i, v) ∷ m) =
      ground (arith, get-remove j k m, e.same_iff i k, e.same_iff i j, e.same_iff k j)

  pub get-insert :
      (j k : K) (v : V) (m : HashMap K V)
      → get j (insert k v m) ≡ (if k == j then some v else get j m)
  unfolding get insert
  get-insert j k v m = ground (arith, get-remove j k m)

  pub get-insert_self : (k : K) (v : V) (m : HashMap K V) → get k (insert k v m) ≡ some v
  get-insert_self k v m = rw (get-insert, same_refl k)

  -- A filter on the key alone.
  pub get-retain :
      (p : K → Bool) (j : K) (m : HashMap K V)
      → get j (retain (λ k v. p k) m) ≡ (if p j then get j m else none)
  unfolding get retain
  get-retain p j [] = elim (Bool-cases (p j)) [ inl t ↦ rw t | inr f ↦ rw f ]
  get-retain p j ((k, v) ∷ m) = elim (Bool-cases (k == j)) [
    | inl t ↦ rw ((e.same_iff k j).0 t) (ground (arith, get-retain p j m, same_refl j))
    | inr f ↦ ground (arith, get-retain p j m)
  ]

  -- A filter on the value leaves no value that it refuses.
  pub get-retain_value :
      (p : V → Bool) (j : K) (v : V) (m : HashMap K V)
      → get j (retain (λ k w. p w) m) ≡ some v
      → p v ≡ true
  unfolding get retain
  get-retain_value p j v [] h = cc
  get-retain_value p j v ((k, w) ∷ m) h = ground (arith, get-retain_value p j v m)

  -- A filter on the value keeps what it accepts.
  pub get-retain_kept :
      (p : V → Bool) (j : K) (v : V) (m : HashMap K V)
      → get j m ≡ some v
      → p v ≡ true
      → get j (retain (λ k w. p w) m) ≡ some v
  unfolding get retain
  get-retain_kept p j v [] h t = cc
  get-retain_kept p j v ((k, w) ∷ m) h t = ground (arith, get-retain_kept p j v m)
