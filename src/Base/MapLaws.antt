-- ===== src/Base/MapLaws.antt =====
-- Laws of the maps, each with the test that decides it.
use mathlib.Core.Path.{◌≡◌, refl}
use mathlib.Core.Option.{none, some}
use mathlib.Core.List.{[], ◌∷◌}
use native.Mathlib.Omega.{arith}
use fast_bypass.Base.Bools.{if◌then◌else◌}
use fast_bypass.Base.Maps.{Eq, Dict, lookup, insert, erase}

module _ {ℓ κ} {K : Type ℓ} {V : Type κ} ⦃e : Eq K⦄ where
  pub lookup-insert :
      (j k : K) (v : V) (d : Dict K V)
      → lookup j (insert k v d) ≡ (if e.beq j k then some v else lookup j d)
  lookup-insert j k v [] = refl
  lookup-insert j k v ((i, w) ∷ d) =
      ground
        (arith, lookup-insert j k v d, e.beq-true k i, e.beq-true j k, e.beq_refl k, e.beq-true j i)

  pub lookup-erase :
      (j k : K) (d : Dict K V) → lookup j (erase k d) ≡ (if e.beq j k then none else lookup j d)
  lookup-erase j k [] = ground arith
  lookup-erase j k ((i, w) ∷ d) =
      ground
        (arith, lookup-erase j k d, e.beq-true k i, e.beq-true j k, e.beq_refl k, e.beq-true j i)
