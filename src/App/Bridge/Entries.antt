-- ===== src/App/Bridge/Entries.antt =====
-- The entry of a setting, from the boiler's table to the payload that is read.
use mathlib.Core.Option
use boiler_mate.Prelude.{
  ◌≡◌, refl, ◌∙◌, ap, sym, inl, inr, Bool-cases, [], ◌∷◌, Bytes, none, some, ◌==◌, bytes_eq,
}
use boiler_mate.Go.Map.{Map, lookup, beq_refl}
use boiler_mate.Nbe.Types.{Runtime, Scalar, Value, text, scalar}
use boiler_mate.Nbe.Payload.{parse_value, show_scalar}
use boiler_mate.Nbe.Payload.RoundTrip.{reread, reread_value}
use boiler_mate.Nbe.Mock.{Table, as_payload, set_value, get_value}
use boiler_mate.Nbe.Mock.Settings.{get_value-set_value_here}
use boiler_mate.Monitor.Round.Boiler.{entries_read}

module _ {F : Type 0} (runtime : Runtime F) where
  lookup-as_payload :
      (k : Bytes) (entries : Map Bytes (Scalar F))
      → lookup k (as_payload entries) ≡ Option.map scalar (lookup k entries)
  unfolding lookup as_payload
  lookup-as_payload k [] = refl
  lookup-as_payload k ((j, v) ∷ entries) = elim (Bool-cases (j == k)) [
    | inl here ↦ rw here refl
    | inr other ↦ rw other (lookup-as_payload k entries)
  ]

  lookup-reread :
      (k : Bytes) (payload : Map Bytes (Value F))
      → lookup k (reread runtime payload) ≡ Option.map (reread_value runtime) (lookup k payload)
  unfolding lookup
  lookup-reread k [] = refl
  lookup-reread k ((j, v) ∷ payload) = elim (Bool-cases (j == k)) [
    | inl here ↦ rw here refl
    | inr other ↦ rw other (lookup-reread k payload)
  ]

  get_value-found :
      (category key : Bytes) (m : Table F) (entries : Map Bytes (Scalar F))
      → lookup category m ≡ some entries
      → get_value category key m ≡ lookup key entries
  unfolding get_value
  get_value-found category key m entries found =
      ap (λ o. elim o [ none ↦ none | some es ↦ lookup key es ]) found

  -- The entry of a set value, as its text is read.
  pub lookup-entries_read :
      (category param value : Bytes) (m : Table F) (entries : Map Bytes (Scalar F))
      → lookup category (set_value category param (text value) m) ≡ some entries
      → lookup param (entries_read runtime entries) ≡ some (scalar (parse_value runtime value))
  unfolding show_scalar
  lookup-entries_read category param value m entries found =
      let there : lookup param entries ≡ some (text value) =
        sym (get_value-found category param (set_value category param (text value) m) entries found)
        ∙ get_value-set_value_here category param param (text value) m
        ∙ rw (beq_refl param) refl in
      lookup-reread param (as_payload entries)
      ∙ ap (Option.map (reread_value runtime))
          (lookup-as_payload param entries ∙ ap (Option.map scalar) there)
