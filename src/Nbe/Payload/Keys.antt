-- ===== src/Nbe/Payload/Keys.antt =====
-- nbe/frame_helpers.go: the keys of a payload that is read.
use boiler_mate.Prelude.{
  true, false, if◌then◌else◌, List, [], ◌∷◌, Bytes, none, some, Bool-cases, inl, inr, ◌==◌,
  bytes_eq,
}
use boiler_mate.Prelude.Int.{int_eq}
use boiler_mate.Go.Map.{Map, KeysNe, insert-KeysNe, insert}
use boiler_mate.Go.Split.{split, split_two}
use boiler_mate.Nbe.Types.{
  Runtime, Function, Value, scalar, unknown_function, get_setup_range_function,
}
use boiler_mate.Nbe.Payload.{to_lower, parse_value, add_range, add_part, add_parts, parse_payload}

module _ {F : Type 0} (runtime : Runtime F) where
  add_range-KeysNe :
      (key : Bytes) (values : List Bytes) (payload : Map Bytes (Value F))
      → KeysNe payload
      → KeysNe (add_range runtime key values payload)
  unfolding add_range
  add_range-KeysNe key (min ∷ (max ∷ (default ∷ (decimals ∷ _)))) payload keys =
      insert-KeysNe key _ payload keys
  add_range-KeysNe key _ payload keys = keys

  add_part-KeysNe :
      (function : Function) (part : Bytes) (payload : Map Bytes (Value F))
      → KeysNe payload
      → KeysNe (add_part runtime function part payload)
  unfolding add_part
  add_part-KeysNe function part payload keys =
      elim (split_two b'=' part)
        as (λ o. KeysNe (elim o [
          | none ↦ payload
          | some (key, value) ↦
              (if function == get_setup_range_function
                then add_range runtime (to_lower runtime key) (split b',' value) payload
                else insert (to_lower runtime key) (scalar (parse_value runtime value)) payload)
        ])) [
          | none ↦ keys
          | some (key, value) ↦
              elim (function == get_setup_range_function)
                as (λ b. KeysNe (
                  if b
                  then add_range runtime (to_lower runtime key) (split b',' value) payload
                  else insert (to_lower runtime key) (scalar (parse_value runtime value))
                      payload)) [
                        | true ↦
                            add_range-KeysNe (to_lower runtime key) (split b',' value) payload keys
                        | false ↦ insert-KeysNe (to_lower runtime key) _ payload keys
                      ]
        ]

  add_parts-KeysNe :
      (function : Function) (parts : List Bytes) (payload : Map Bytes (Value F))
      → KeysNe payload
      → KeysNe (add_parts runtime function parts payload)
  unfolding add_parts
  add_parts-KeysNe function [] payload keys = keys
  add_parts-KeysNe function (part ∷ parts) payload keys =
      add_parts-KeysNe function parts (add_part runtime function part payload)
        (add_part-KeysNe function part payload keys)

  -- A payload that is read has no key twice, whatever the text.
  pub parse_payload-KeysNe :
      (payload_str : Bytes) (function : Function)
      → KeysNe (parse_payload runtime payload_str function)
  unfolding parse_payload
  parse_payload-KeysNe payload_str function = elim (Bool-cases (function == unknown_function)) [
    | inl unknown ↦ rw unknown (tt, tt)
    | inr known ↦ rw known (add_parts-KeysNe function (split b';' payload_str) [] tt)
  ]
