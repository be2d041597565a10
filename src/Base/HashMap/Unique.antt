-- ===== src/Base/HashMap/Unique.antt =====
-- Maps in which every key stands once.
use mathlib.Core.Path.{◌≡◌}
use mathlib.Core.Bool.{Bool, true, false}
use mathlib.Core.List.{[], ◌∷◌}
use mathlib.Core.Option.{none}
use native.Mathlib.Omega.{arith}
use proxec.Base.Tests.{if◌then◌else◌}
use proxec.Base.Equality.{Eq, ◌==◌, same_refl}
use proxec.Base.HashMap.{HashMap, get, remove, insert, retain, get-remove}

module _ {ℓ κ} {K : Type ℓ} {V : Type κ} ⦃e : Eq K⦄ where
  abbrev pub IsMap : HashMap K V → Type κ
  IsMap [] = Unit
  IsMap ((k, v) ∷ m) = (get k m ≡ none) × IsMap m

  pub IsMap-if : (b : Bool) (m m' : HashMap K V) → IsMap m → IsMap m' → IsMap (if b then m else m')
  IsMap-if true m m' h h' = h
  IsMap-if false m m' h h' = h'

  pub IsMap-remove : (k : K) (m : HashMap K V) → IsMap m → IsMap (remove k m)
  unfolding remove
  IsMap-remove k [] h = tt
  IsMap-remove k ((j, v) ∷ m) (fresh, h) =
      let rest = IsMap-remove k m h in
      IsMap-if (j == k) (remove k m) ((j, v) ∷ remove k m) rest
        (ground (arith, get-remove j k m, fresh), rest)

  pub IsMap-insert : (k : K) (v : V) (m : HashMap K V) → IsMap m → IsMap (insert k v m)
  unfolding insert
  IsMap-insert k v m h = (ground (arith, get-remove k k m, same_refl k), IsMap-remove k m h)

  get-retain_absent :
      (p : K → V → Bool) (j : K) (m : HashMap K V) → get j m ≡ none → get j (retain p m) ≡ none
  unfolding get retain
  get-retain_absent p j [] absent = absent
  get-retain_absent p j ((k, v) ∷ m) absent = ground (arith, absent, get-retain_absent p j m)

  pub IsMap-retain : (p : K → V → Bool) (m : HashMap K V) → IsMap m → IsMap (retain p m)
  unfolding retain
  IsMap-retain p [] h = tt
  IsMap-retain p ((k, v) ∷ m) (fresh, h) =
      let rest = IsMap-retain p m h in
      IsMap-if (p k v) ((k, v) ∷ retain p m) (retain p m) (get-retain_absent p k m fresh, rest) rest
