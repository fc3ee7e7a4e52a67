-- ===== src/Go/Map/Entries.antt =====
-- What holds of every entry of a Go map: kept by its operations, and how many entries there are.
use mathlib.Core.Path.{subst}
use boiler_mate.Prelude.{
  suc, ◌≤◌, ◌≡◌, refl, ap, [], ◌∷◌, some, arith, length, All, Eq, ◌==◌, Bool-cases, inl, inr,
  some-injective,
}
use boiler_mate.Go.Map.{Map, lookup, insert, delete, Fresh, KeysNe}

module _ {K X : Type 0} ⦃e : Eq K⦄ where
  pub All-insert :
      (P : K × X → Type 0) (k : K) (v : X) (m : Map K X) → P (k, v) → All P m → All P (insert k v m)
  unfolding insert
  All-insert P k v [] p h = (p, tt)
  All-insert P k v ((j, w) ∷ m) p h = elim (Bool-cases (j == k)) [
    | inl here ↦ rw here (p, h.1)
    | inr there ↦ rw there (h.0, All-insert P k v m p h.1)
  ]

  pub All-delete : (P : K × X → Type 0) (k : K) (m : Map K X) → All P m → All P (delete k m)
  unfolding delete
  All-delete P k [] h = tt
  All-delete P k ((j, w) ∷ m) h = elim (Bool-cases (j == k)) [
    | inl here ↦ rw here (All-delete P k m h.1)
    | inr there ↦ rw there (h.0, All-delete P k m h.1)
  ]

  pub All-lookup :
      (P : K × X → Type 0) (k : K) (v : X) (m : Map K X) → All P m → lookup k m ≡ some v → P (k, v)
  unfolding lookup
  All-lookup P k v [] h found = ground arith
  All-lookup P k v ((j, w) ∷ m) h found = elim (Bool-cases (j == k)) [
    | inl here ↦
        (let value : some w ≡ some v = ground (arith, found, here) in
          subst (λ i. P (i, v)) ((e.same_iff j k).0 here)
            (subst (λ x. P (j, x)) (some-injective w v value) h.0))
    | inr there ↦
        (let behind : lookup k m ≡ some v = ground (arith, found, there) in
          All-lookup P k v m h.1 behind)
  ]

  pub delete-Fresh : (k : K) (m : Map K X) → Fresh k m → delete k m ≡ m
  unfolding delete
  delete-Fresh k [] h = refl
  delete-Fresh k ((j, w) ∷ m) h = rw h.0 (ap (◌∷◌ (j, w)) (delete-Fresh k m h.1))

  Fresh-delete : (j k : K) (m : Map K X) → Fresh j m → Fresh j (delete k m)
  unfolding delete
  Fresh-delete j k [] h = tt
  Fresh-delete j k ((i, w) ∷ m) h = elim (Bool-cases (i == k)) [
    | inl here ↦ rw here (Fresh-delete j k m h.1)
    | inr there ↦ rw there (h.0, Fresh-delete j k m h.1)
  ]

  pub delete-KeysNe : (k : K) (m : Map K X) → KeysNe m → KeysNe (delete k m)
  unfolding delete
  delete-KeysNe k [] h = tt
  delete-KeysNe k ((i, w) ∷ m) h = elim (Bool-cases (i == k)) [
    | inl here ↦ rw here (delete-KeysNe k m h.1)
    | inr there ↦ rw there (Fresh-delete i k m h.0, delete-KeysNe k m h.1)
  ]

  -- Deleting takes away one entry at most.
  pub length-delete : (k : K) (m : Map K X) → KeysNe m → length m ≤ suc (length (delete k m))
  unfolding delete
  length-delete k [] h = omega arith
  length-delete k ((i, w) ∷ m) h = elim (Bool-cases (i == k)) [
    | inl here ↦
        rw (here, delete-Fresh k m (subst (λ j. Fresh j m) ((e.same_iff i k).0 here) h.0))
          (omega arith)
    | inr there ↦ rw there (omega (arith, length-delete k m h.1))
  ]
