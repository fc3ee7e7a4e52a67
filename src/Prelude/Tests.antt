-- ===== src/Prelude/Tests.antt =====
-- Boolean tests on the native numbers, the conditional, and equality as an interface.
use Prim.Native.Nat.{ℕ, ◌≤◌, ◌<◌, compare, Ordering}
use mathlib.Core.Path.{◌≡◌, refl}
use mathlib.Core.Logic.{◌↔◌, ◌⊎◌, inl, inr}
use mathlib.Core.Bool.{Bool, true, false, ◌&&◌}
use mathlib.Core.List.{List, [], ◌∷◌}
use mathlib.Core.Option.{Option, none, some}
use native.Mathlib.Omega.{arith}

abbrev pub ltb : ℕ → ℕ → Bool
ltb a b = elim (compare a b) [ Ordering.lt ↦ true | _ ↦ false ]

abbrev pub leb : ℕ → ℕ → Bool
leb a b = elim (compare a b) [ Ordering.gt ↦ false | _ ↦ true ]

abbrev pub eqb : ℕ → ℕ → Bool
eqb a b = elim (compare a b) [ Ordering.eq ↦ true | _ ↦ false ]

infix 1 if◌then◌else◌
abbrev pub if◌then◌else◌ {ℓ} : {A : Type ℓ} → Bool → A → A → A
if true then x else y = x
if false then x else y = y

pub ltb→lt : (a b : ℕ) → ltb a b ≡ true → a < b
ltb→lt a b h = ground arith

pub lt→ltb : (a b : ℕ) → a < b → ltb a b ≡ true
lt→ltb a b h = ground arith

pub leb→le : (a b : ℕ) → leb a b ≡ true → a ≤ b
leb→le a b h = ground arith

pub le→leb : (a b : ℕ) → a ≤ b → leb a b ≡ true
le→leb a b h = ground arith

pub eqb_iff : (a b : ℕ) → (eqb a b ≡ true) ↔ (a ≡ b)
eqb_iff a b = ground arith

pub Bool-cases : (b : Bool) → (b ≡ true) ⊎ (b ≡ false)
Bool-cases true = inl refl
Bool-cases false = inr refl

pub Option-cases {ℓ} : {A : Type ℓ} (o : Option A) → (o ≡ none) ⊎ ((a : A) × (o ≡ some a))
Option-cases none = inl refl
Option-cases (some a) = inr (a, refl)

-- Equality by a test.
pub record Eq {ℓ} (A : Type ℓ) : Type ℓ where
  pub same : A → A → Bool
  -- The test decides equality.
  pub same_iff : (x y : A) → (same x y ≡ true) ↔ (x ≡ y)

infix 50 ◌==◌
abbrev pub ◌==◌ {ℓ} : {A : Type ℓ} ⦃e : Eq A⦄ → A → A → Bool
◌==◌ ⦃e⦄ = e.same

instance abbrev pub nat_eq : Eq ℕ
nat_eq = record { same = eqb; same_iff = eqb_iff }

-- Two texts byte by byte.
abbrev pub bytes_beq : List ℕ → List ℕ → Bool
bytes_beq [] [] = true
bytes_beq (x ∷ xs) (y ∷ ys) = eqb x y && bytes_beq xs ys
bytes_beq _ _ = false

pub bytes_beq_iff : (a b : List ℕ) → (bytes_beq a b ≡ true) ↔ (a ≡ b)
bytes_beq_iff (x ∷ a) (y ∷ b) = ground (arith, bytes_beq_iff a b)
bytes_beq_iff _ _ = ground arith

instance abbrev pub bytes_eq : Eq (List ℕ)
bytes_eq = record { same = bytes_beq; same_iff = bytes_beq_iff }
