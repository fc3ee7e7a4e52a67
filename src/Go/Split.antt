-- ===== src/Go/Split.antt =====
-- `strings.Split`, `strings.SplitN` with 2, `strings.Join`, `strings.ToLower` and the tests of a
-- suffix, over bytes.
use boiler_mate.Prelude.{
  ℕ, ◌+◌, ◌≡◌, ◌≢◌, ◌∙◌, ap, Bool, true, false, ◌&&◌, List, [], ◌∷◌, ◌++◌, Option, none, some,
  arith, ltb, leb, eqb, if◌then◌else◌, Bytes, reverse, All, append_assoc, append-nil,
}
use mathlib.Core.Option
use boiler_mate.Go.Space.{cut_prefix}

module _ (sep : ℕ) where
  -- The parts behind the part that is being read.
  split_onto : Bytes → Bytes → List Bytes
  split_onto cur [] = cur ∷ []
  split_onto cur (c ∷ s) = elim (eqb c sep) [
    | true ↦ cur ∷ split_onto [] s
    | false ↦ split_onto (cur ++ (c ∷ [])) s
  ]

  -- `strings.Split(s, sep)` for a separator of one byte.
  unfoldable pub split : Bytes → List Bytes
  unfolding split_onto
  split s = split_onto [] s

  cut_onto : Bytes → Bytes → Option (Bytes × Bytes)
  cut_onto cur [] = none
  cut_onto cur (c ∷ s) = elim (eqb c sep) [
    | true ↦ some (cur, s)
    | false ↦ cut_onto (cur ++ (c ∷ [])) s
  ]

  -- The two parts of `strings.SplitN(s, sep, 2)`; `none` where there is one part.
  unfoldable pub split_two : Bytes → Option (Bytes × Bytes)
  unfolding cut_onto
  split_two s = cut_onto [] s

  abbrev pub Lacks : Bytes → Type 0
  Lacks s = All (λ c. c ≢ sep) s

  split_onto-part :
      (cur p rest : Bytes)
      → Lacks p
      → split_onto cur (p ++ (sep ∷ rest)) ≡ (cur ++ p) ∷ split_onto [] rest
  unfolding split_onto
  split_onto-part cur [] rest h = ground (arith, append-nil cur)
  split_onto-part cur (c ∷ p) rest h =
      ground (arith, split_onto-part (cur ++ (c ∷ [])) p rest h.1, append_assoc cur (c ∷ []) p)

  split_onto-last : (cur p : Bytes) → Lacks p → split_onto cur p ≡ (cur ++ p) ∷ []
  unfolding split_onto
  split_onto-last cur [] h = ground (arith, append-nil cur)
  split_onto-last cur (c ∷ p) h =
      ground (arith, split_onto-last (cur ++ (c ∷ [])) p h.1, append_assoc cur (c ∷ []) p)

  split_onto-append :
      (cur s t : Bytes) → split_onto cur (s ++ (sep ∷ t)) ≡ split_onto cur s ++ split_onto [] t
  unfolding split_onto
  split_onto-append cur [] t = ground arith
  split_onto-append cur (c ∷ s) t =
      ground (arith, split_onto-append [] s t, split_onto-append (cur ++ (c ∷ [])) s t)

  -- Two texts with the separator between them are split one after the other.
  pub split-append : (s t : Bytes) → split (s ++ (sep ∷ t)) ≡ split s ++ split t
  unfolding split
  split-append s t = split_onto-append [] s t

  cut_onto-part :
      (cur p rest : Bytes) → Lacks p → cut_onto cur (p ++ (sep ∷ rest)) ≡ some (cur ++ p, rest)
  unfolding cut_onto
  cut_onto-part cur [] rest h = ground (arith, append-nil cur)
  cut_onto-part cur (c ∷ p) rest h =
      ground (arith, cut_onto-part (cur ++ (c ∷ [])) p rest h.1, append_assoc cur (c ∷ []) p)

  -- A text is cut at the first separator.
  pub split_two-part : (p rest : Bytes) → Lacks p → split_two (p ++ (sep ∷ rest)) ≡ some (p, rest)
  unfolding split_two
  split_two-part p rest h = cut_onto-part [] p rest h

  -- `strings.Join(parts, sep)`.
  unfoldable pub join : List Bytes → Bytes
  join [] = []
  join (p ∷ []) = p
  join (p ∷ (q ∷ ps)) = p ++ (sep ∷ join (q ∷ ps))

  -- Splitting joined parts that lack the separator gives them back.
  pub split-join :
      (p : Bytes) (ps : List Bytes) → Lacks p → All Lacks ps → split (join (p ∷ ps)) ≡ p ∷ ps
  unfolding split join
  split-join p [] h hs = split_onto-last [] p h
  split-join p (q ∷ ps) h hs =
      split_onto-part [] p (join (q ∷ ps)) h ∙ ap (◌∷◌ p) (split-join q ps hs.0 hs.1)

-- `strings.ToLower` of an ASCII byte.
unfoldable pub lower_byte : ℕ → ℕ
lower_byte c = if leb b'A' c && leb c b'Z' then c + 32 else c

-- Every byte is ASCII.
unfoldable pub is_ascii : Bytes → Bool
is_ascii [] = true
is_ascii (c ∷ s) = ltb c 0x80 && is_ascii s

-- What is before the suffix, if the text ends in it: `strings.HasSuffix`, `strings.TrimSuffix`.
unfoldable pub cut_suffix : Bytes → Bytes → Option Bytes
cut_suffix suffix s = Option.map reverse (cut_prefix (reverse suffix) (reverse s))
