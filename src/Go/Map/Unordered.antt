-- ===== src/Go/Map/Unordered.antt =====
-- Go's maps up to the order in which their entries are listed.
use mathlib.Core.Quot.{Quot}
use boiler_mate.Prelude.{◌≡◌, Eq}
use boiler_mate.Go.Map.{Map, lookup}

module _ {ℓ κ} {K : Type ℓ} {V : Type κ} ⦃e : Eq K⦄ where
  -- Two lists have the same entry at every key.
  abbrev pub SameEntries : Map K V → Map K V → Type (ℓ ⊔ κ)
  SameEntries m m' = (k : K) → lookup k m ≡ lookup k m'

-- A map as Go promises it: without an order.
abbrev pub Unordered {ℓ κ} : (K : Type ℓ) (V : Type κ) → ⦃e : Eq K⦄ → Type (ℓ ⊔ κ)
Unordered K V ⦃e⦄ = Quot (SameEntries {K = K} {V = V} ⦃e = e⦄)

abbrev pub unordered {ℓ κ} : {K : Type ℓ} {V : Type κ} ⦃e : Eq K⦄ → Map K V → Unordered K V
unordered m = Quot.mk m
