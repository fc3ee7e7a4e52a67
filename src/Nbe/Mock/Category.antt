-- ===== src/Nbe/Mock/Category.antt =====
-- The simulated boiler's answer to a request for a whole category.
use boiler_mate.Prelude.{
  ◌≡◌, refl, ◌∙◌, ap, false, [], ◌∷◌, ◌++◌, Bytes, codes, some, arith, length, length-append, ◌==◌,
  bytes_eq, bytes_beq_iff, Bool-cases, inl, inr, reverse,
}
use mathlib.Core.List.{reverse-append, reverse-reverse}
use mathlib.Core.Option
use boiler_mate.Go.Map.{Map, lookup}
use boiler_mate.Go.Space.{cut_prefix}
use boiler_mate.Go.Split.{cut_suffix}
use boiler_mate.Nbe.Types.{Scalar}
use boiler_mate.Nbe.Mock.{Table, whole_category, get_data}

cut_prefix-append : (p s : Bytes) → cut_prefix p (p ++ s) ≡ some s
unfolding cut_prefix
cut_prefix-append [] s = refl
cut_prefix-append (c ∷ p) s = ground (arith, cut_prefix-append p s)

cut_suffix-append : (suffix s : Bytes) → cut_suffix suffix (s ++ suffix) ≡ some s
unfolding cut_suffix
cut_suffix-append suffix s =
    ap (λ r. Option.map reverse (cut_prefix (reverse suffix) r)) (reverse-append s suffix)
    ∙ ap (Option.map reverse) (cut_prefix-append (reverse suffix) (reverse s))
    ∙ ap some (reverse-reverse s)

longer : (category : Bytes) → (category ++ codes ".*" == codes "*") ≡ false
longer category = elim (Bool-cases (category ++ codes ".*" == codes "*")) [
  | inl same ↦ absurd (
      omega (
        arith,
        ap length ((bytes_beq_iff (category ++ codes ".*") (codes "*")).0 same),
        length-append category (codes ".*"),
      ))
  | inr other ↦ other
]

-- The path of a category with a star names the category.
pub whole_category-star :
    (category : Bytes) → whole_category (category ++ codes ".*") ≡ some category
unfolding whole_category
whole_category-star category = rw (longer category) (cut_suffix-append (codes ".*") category)

module _ {F : Type 0} where
  pub get_data-star :
      (category : Bytes) (m : Table F) {entries : Map Bytes (Scalar F)}
      → (category == codes "*") ≡ false
      → lookup category m ≡ some entries
      → get_data (category ++ codes ".*") m ≡ entries
  unfolding get_data
  get_data-star category m one there = rw (whole_category-star category, get_data, one, there) refl
