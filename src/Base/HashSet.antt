-- ===== src/Base/HashSet.antt =====
-- `std::collections::HashSet` as a list without repetition, with the laws of each operation used.
use mathlib.Core.Path.{◌≡◌}
use mathlib.Core.Bool.{Bool, false, ◌&&◌, ◌||◌, not}
use mathlib.Core.List.{List, [], ◌∷◌}
use native.Mathlib.Omega.{arith}
use proxec.Base.Tests.{if◌then◌else◌}
use proxec.Base.Equality.{Eq, ◌==◌}

abbrev pub HashSet {ℓ} : Type ℓ → Type ℓ
HashSet K = List K

module _ {ℓ} {K : Type ℓ} where
  unfoldable pub retain : (K → Bool) → HashSet K → HashSet K
  retain p [] = []
  retain p (k ∷ s) = let rest = retain p s in if p k then k ∷ rest else rest

module _ {ℓ} {K : Type ℓ} ⦃e : Eq K⦄ where
  unfoldable pub contains : K → HashSet K → Bool
  contains j [] = false
  contains j (k ∷ s) = k == j || contains j s

  unfoldable pub remove : K → HashSet K → HashSet K
  remove j [] = []
  remove j (k ∷ s) = let rest = remove j s in if k == j then rest else k ∷ rest

  unfoldable pub insert : K → HashSet K → HashSet K
  unfolding remove
  insert k s = k ∷ remove k s

  pub contains-remove :
      (j k : K) (s : HashSet K) → contains j (remove k s) ≡ (not (k == j) && contains j s)
  unfolding contains remove
  contains-remove j k [] = ground arith
  contains-remove j k (i ∷ s) =
      ground (arith, contains-remove j k s, e.same_iff i k, e.same_iff i j, e.same_iff k j)

  pub contains-insert :
      (j k : K) (s : HashSet K) → contains j (insert k s) ≡ (k == j || contains j s)
  unfolding contains insert
  contains-insert j k s = ground (arith, contains-remove j k s)

  pub contains-retain :
      (p : K → Bool) (j : K) (s : HashSet K) → contains j (retain p s) ≡ (p j && contains j s)
  unfolding contains retain
  contains-retain p j [] = ground arith
  contains-retain p j (k ∷ s) = ground (arith, contains-retain p j s, e.same_iff k j, ap_test)
    where
      ap_test : k ≡ j → p k ≡ p j
      ap_test h = cc
