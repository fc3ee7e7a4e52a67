-- ===== src/Go/Map.antt =====
-- Go's maps as association lists without order: assignment replaces in place or appends.
pub mod Entries
pub mod Unordered
use mathlib.Core.Path.{subst}
use boiler_mate.Prelude.{
  Bool-cases, inl, inr, ◌≡◌, sym, refl, ◌∙◌, append-nil, append_assoc, true, false, List, [], ◌∷◌,
  ◌++◌, Option, none, some, arith, if◌then◌else◌, Eq, ◌==◌,
}

abbrev pub Map {ℓ κ} : Type ℓ → Type κ → Type (ℓ ⊔ κ)
Map K V = List (K × V)

pub beq_refl {ℓ} : {K : Type ℓ} ⦃e : Eq K⦄ (k : K) → (k == k) ≡ true
beq_refl ⦃e⦄ k = (e.same_iff k k).1 refl

module _ {ℓ κ} {K : Type ℓ} {V : Type κ} ⦃e : Eq K⦄ where
  -- `m[k]`, with whether it is there.
  unfoldable pub lookup : K → Map K V → Option V
  lookup k [] = none
  lookup k ((j, v) ∷ m) = if j == k then some v else lookup k m

  -- `m[k] = v`.
  unfoldable pub insert : K → V → Map K V → Map K V
  insert k v [] = (k, v) ∷ []
  insert k v ((j, w) ∷ m) = if j == k then (k, v) ∷ m else (j, w) ∷ insert k v m

  -- `delete(m, k)`.
  unfoldable pub delete : K → Map K V → Map K V
  delete k [] = []
  delete k ((j, v) ∷ m) = let rest = delete k m in if j == k then rest else (j, v) ∷ rest

  pub lookup-insert :
      (put got : K) (value : V) (entries : Map K V)
      → lookup got (insert put value entries)
        ≡ (if put == got then some value else lookup got entries)
  unfolding lookup insert
  lookup-insert put got value [] = refl
  lookup-insert put got value ((key, old) ∷ entries) =
      let rest = lookup-insert put got value entries in
      ground (arith, e.same_iff key got, e.same_iff key put, e.same_iff put got, rest)

  pub lookup-delete :
      (k j : K) (m : Map K V) → lookup j (delete k m) ≡ (if k == j then none else lookup j m)
  unfolding lookup delete
  lookup-delete k j [] = ground arith
  lookup-delete k j ((i, w) ∷ m) =
      ground (arith, e.same_iff k j, e.same_iff i k, e.same_iff i j, lookup-delete k j m)

  -- A key that no entry of the list has.
  abbrev pub Fresh : K → Map K V → Type 0
  Fresh k [] = Unit
  Fresh k ((j, v) ∷ m) = ((j == k) ≡ false) × Fresh k m

  -- No key twice.
  abbrev pub KeysNe : Map K V → Type 0
  KeysNe [] = Unit
  KeysNe ((k, v) ∷ m) = Fresh k m × KeysNe m

  pub insert-Fresh : (k : K) (v : V) (m : Map K V) → Fresh k m → insert k v m ≡ m ++ ((k, v) ∷ [])
  unfolding insert
  insert-Fresh k v [] h = refl
  insert-Fresh k v ((j, w) ∷ m) h = ground (arith, insert-Fresh k v m h.1)

  insert-Fresh-ne :
      (j k : K) (v : V) (m : Map K V) → Fresh j m → (k == j) ≡ false → Fresh j (insert k v m)
  unfolding insert
  insert-Fresh-ne j k v [] h other = (other, tt)
  insert-Fresh-ne j k v ((i, w) ∷ m) h other = elim (Bool-cases (i == k)) [
    | inl here ↦ rw here (other, h.1)
    | inr there ↦ rw there (h.0, insert-Fresh-ne j k v m h.1 other)
  ]

  -- Assigning keeps the keys different.
  pub insert-KeysNe : (k : K) (v : V) (m : Map K V) → KeysNe m → KeysNe (insert k v m)
  unfolding insert
  insert-KeysNe k v [] h = (tt, tt)
  insert-KeysNe k v ((j, w) ∷ m) h = elim (Bool-cases (j == k)) [
    | inl here ↦ rw here (subst (λ i. Fresh i m) ((e.same_iff j k).0 here) h.0, h.1)
    | inr there ↦ rw there (
      insert-Fresh-ne j k v m h.0 (ground (arith, e.same_iff j k, e.same_iff k j)),
      insert-KeysNe k v m h.1,
    )
  ]

  pub lookup-Fresh : (k : K) (m : Map K V) → Fresh k m → lookup k m ≡ none
  unfolding lookup
  lookup-Fresh k [] h = refl
  lookup-Fresh k ((j, v) ∷ m) h = ground (arith, lookup-Fresh k m h.1)

  -- Entries assigned one after another.
  unfoldable pub insert_all : Map K V → Map K V → Map K V
  unfolding insert
  insert_all [] m = m
  insert_all ((k, v) ∷ es) m = insert_all es (insert k v m)

  beq_sym : (k : K) (v : V) (j : K) → (k == j) ≡ false → (j == k) ≡ false
  beq_sym k v j h = ground (arith, e.same_iff k j, e.same_iff j k)

  Fresh-at :
      (m : Map K V) (j k : K) (v : V) (es : Map K V)
      → Fresh j (m ++ ((k, v) ∷ es))
      → (k == j) ≡ false
  Fresh-at [] j k v es h = h.0
  Fresh-at ((i, w) ∷ m) j k v es h = Fresh-at m j k v es h.1

  Fresh-inner :
      (m : Map K V) (k : K) (v : V) (es : Map K V) → KeysNe (m ++ ((k, v) ∷ es)) → Fresh k m
  Fresh-inner [] k v es h = tt
  Fresh-inner ((j, w) ∷ m) k v es h =
      (beq_sym k v j (Fresh-at m j k v es h.0), Fresh-inner m k v es h.1)

  -- Assigning entries whose keys are new and all different appends them.
  pub insert_all-append : (es m : Map K V) → KeysNe (m ++ es) → insert_all es m ≡ m ++ es
  unfolding insert_all
  insert_all-append [] m h = sym (append-nil m)
  insert_all-append ((k, v) ∷ es) m h = rw (insert-Fresh k v m (Fresh-inner m k v es h)) (
      insert_all-append es (m ++ ((k, v) ∷ [])) (rw append_assoc h)
      ∙ append_assoc m ((k, v) ∷ []) es)
