-- ===== src/Go/Space.antt =====
-- `strings.TrimSpace`, and the runes that it counts as white space, as their UTF-8 bytes.
use boiler_mate.Prelude.{
  ℕ, zero, suc, ◌≤◌, ◌≡◌, ◌≢◌, refl, List, [], ◌∷◌, map, reverse, Option, none, some, arith, eqb,
  if◌then◌else◌, Bytes, length, All, All-reverse, codes,
}
use mathlib.Core.List.{reverse-reverse}

-- The code points U+0009 to U+000D, U+0020, U+0085, U+00A0, U+1680, U+2000 to U+200A, U+2028,
-- U+2029, U+202F, U+205F and U+3000.
abbrev pub spaces : List Bytes
spaces =
    (9 ∷ [])
    ∷ (10 ∷ [])
    ∷ (11 ∷ [])
    ∷ (12 ∷ [])
    ∷ (13 ∷ [])
    ∷ (32 ∷ [])
    ∷ (0xc2 ∷ 0x85 ∷ [])
    ∷ (0xc2 ∷ 0xa0 ∷ [])
    ∷ (0xe1 ∷ 0x9a ∷ 0x80 ∷ [])
    ∷ (0xe2 ∷ 0x80 ∷ 0x80 ∷ [])
    ∷ (0xe2 ∷ 0x80 ∷ 0x81 ∷ [])
    ∷ (0xe2 ∷ 0x80 ∷ 0x82 ∷ [])
    ∷ (0xe2 ∷ 0x80 ∷ 0x83 ∷ [])
    ∷ (0xe2 ∷ 0x80 ∷ 0x84 ∷ [])
    ∷ (0xe2 ∷ 0x80 ∷ 0x85 ∷ [])
    ∷ (0xe2 ∷ 0x80 ∷ 0x86 ∷ [])
    ∷ (0xe2 ∷ 0x80 ∷ 0x87 ∷ [])
    ∷ (0xe2 ∷ 0x80 ∷ 0x88 ∷ [])
    ∷ (0xe2 ∷ 0x80 ∷ 0x89 ∷ [])
    ∷ (0xe2 ∷ 0x80 ∷ 0x8a ∷ [])
    ∷ (0xe2 ∷ 0x80 ∷ 0xa8 ∷ [])
    ∷ (0xe2 ∷ 0x80 ∷ 0xa9 ∷ [])
    ∷ (0xe2 ∷ 0x80 ∷ 0xaf ∷ [])
    ∷ (0xe2 ∷ 0x81 ∷ 0x9f ∷ [])
    ∷ (0xe3 ∷ 0x80 ∷ 0x80 ∷ [])
    ∷ []

-- `strings.CutPrefix`.
unfoldable pub cut_prefix : Bytes → Bytes → Option Bytes
cut_prefix [] s = some s
cut_prefix (p ∷ ps) [] = none
cut_prefix (p ∷ ps) (c ∷ s) = if eqb p c then cut_prefix ps s else none

-- What follows the first of the prefixes that `s` begins with.
unfoldable pub cut_any : List Bytes → Bytes → Option Bytes
unfolding cut_prefix
cut_any [] s = none
cut_any (p ∷ ps) s = elim (cut_prefix p s) [ none ↦ cut_any ps s | some rest ↦ some rest ]

-- Every one of the prefixes is dropped as often as the text begins with it, with fuel for one
-- round a byte.
trim_front : List Bytes → ℕ → Bytes → Bytes
unfolding cut_any
trim_front ps zero s = s
trim_front ps (suc f) s = elim (cut_any ps s) [ none ↦ s | some rest ↦ trim_front ps f rest ]

unfoldable pub trim_space : Bytes → Bytes
unfolding trim_front
trim_space s =
    let front = trim_front spaces (length s) s in
    reverse (trim_front (map reverse spaces) (length front) (reverse front))

-- No prefix of the list begins with `c`.
abbrev pub LeadNe : ℕ → List Bytes → Type 0
LeadNe c [] = Unit
LeadNe c ([] ∷ ps) = ⊥
LeadNe c ((p ∷ _) ∷ ps) = (p ≢ c) × LeadNe c ps

cut_any-none : (ps : List Bytes) (c : ℕ) (s : Bytes) → LeadNe c ps → cut_any ps (c ∷ s) ≡ none
unfolding cut_any
cut_any-none [] c s h = refl
cut_any-none ([] ∷ ps) c s h = absurd h
cut_any-none ((p ∷ q) ∷ ps) c s h = ground (arith, cut_any-none ps c s h.1)

cut_any-nil : (ps : List Bytes) (c : ℕ) → LeadNe c ps → cut_any ps [] ≡ none
unfolding cut_any
cut_any-nil [] c h = refl
cut_any-nil ([] ∷ ps) c h = absurd h
cut_any-nil ((p ∷ q) ∷ ps) c h = rw (cut_any-nil ps c h.1)

-- No white space begins or ends with a printable ASCII byte.
abbrev pub IsPrint : ℕ → Type 0
IsPrint c = (33 ≤ c) × (c ≤ 126)

pub LeadNe-spaces : (c : ℕ) → IsPrint c → LeadNe c spaces
LeadNe-spaces c h = omega arith

pub cut_any-spaces : (c : ℕ) (s : Bytes) → IsPrint c → cut_any spaces (c ∷ s) ≡ none
cut_any-spaces c s h = cut_any-none spaces c s (LeadNe-spaces c h)

trim_front-All :
    (ps : List Bytes) (s : Bytes)
    → ((c : ℕ) → IsPrint c → LeadNe c ps)
    → (f : ℕ) → All IsPrint s
    → trim_front ps f s ≡ s
unfolding trim_front
trim_front-All ps s lead zero h = refl
trim_front-All ps [] lead (suc f) h = rw (cut_any-nil ps 33 (lead 33 (omega arith)), trim_front)
trim_front-All ps (c ∷ s) lead (suc f) h = rw (cut_any-none ps c s (lead c h.0), trim_front)

-- A text of printable ASCII bytes other than the space is trimmed to itself.
pub trim_space-print : (s : Bytes) → All IsPrint s → trim_space s ≡ s
unfolding trim_space
trim_space-print s h = rw (trim_front-All spaces s LeadNe-spaces (length s) h) (
    rw
      (trim_front-All (map reverse spaces) (reverse s) (λ c p. omega arith) (length s)
        (All-reverse IsPrint s h))
      (reverse-reverse s))

trim_both : trim_space (codes " \t12 \n") ≡ codes "12"
unfolding trim_space
trim_both = refl

trim_wide : trim_space (0xc2 ∷ 0xa0 ∷ 0x37 ∷ 0xe2 ∷ 0x80 ∷ 0x83 ∷ []) ≡ codes "7"
unfolding trim_space
trim_wide = refl
