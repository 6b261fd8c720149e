-- ===== src/Base/Dict.antt =====
-- A map from keys to values as a list of pairs; the latest insertion is found first.
use mathlib.Core.Path.{◌≡◌, refl}
use mathlib.Core.Option.{Option, none, some}
use mathlib.Core.List.{List, [], ◌∷◌}
use retroshade.Base.Tests.{Eq, ◌==◌, if◌then◌else◌}

module _ {ℓ κ} {K : Type ℓ} {V : Type κ} ⦃e : Eq K⦄ where
  unfoldable pub lookup : K → List (K × V) → Option V
  lookup k [] = none
  lookup k ((j, v) ∷ m) = if j == k then some v else lookup k m

  unfoldable pub insert : K → V → List (K × V) → List (K × V)
  insert k v m = (k, v) ∷ m

  pub lookup-insert_self : (k : K) (v : V) (m : List (K × V)) → lookup k (insert k v m) ≡ some v
  unfolding lookup insert
  lookup-insert_self k v m = rw ((e.eqb_iff k k).1 refl) refl

  pub lookup-insert :
      (k j : K) (v : V) (m : List (K × V))
      → lookup j (insert k v m) ≡ (if k == j then some v else lookup j m)
  unfolding lookup insert
  lookup-insert k j v m = refl
