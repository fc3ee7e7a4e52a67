-- ===== src/Nbe/Payload.antt =====
-- nbe/frame_helpers.go: the payload's text, written by `serializePayload` and read by
-- `parsePayload` and `parseValue`. A Go map is walked in an order that Go does not fix: here a map
-- is the list of its entries in the order of the walk.
pub mod Keys
pub mod RoundTrip
use boiler_mate.Prelude.{
  ℕ, ◌≡◌, Bool, List, [], ◌∷◌, ◌++◌, map, Bytes, codes, Option, none, some, arith, if◌then◌else◌,
  ◌==◌, bytes_eq,
}
use boiler_mate.Prelude.Int.{ℤ, pos, negsuc, int_eq}
use boiler_mate.Go.Format.{format_int}
use boiler_mate.Go.Map.{Map, insert}
use boiler_mate.Go.Parse.{parse_int}
use boiler_mate.Go.Split.{split, split_two, join, lower_byte, is_ascii}
use boiler_mate.Nbe.Types.{
  Runtime, Function, unknown_function, get_setup_range_function, Scalar, int64, rounded, text,
  Value, scalar, range,
}

module _ {F : Type 0} (runtime : Runtime F) where
  -- `%v` of a scalar.
  unfoldable pub show_scalar : Scalar F → Bytes
  show_scalar (int64 z) = format_int z
  show_scalar (rounded x) = runtime.show_float x
  show_scalar (text s) = s

  -- `%v` of a payload's value; the keys of a map are printed in order.
  unfoldable pub show_value : Value F → Bytes
  unfolding show_scalar
  show_value (scalar v) = show_scalar v
  show_value (range min max default decimals) =
      codes "map[decimals:"
      ++ (show_scalar decimals
          ++ (codes " default:"
              ++ (show_scalar default
                  ++ (codes " max:"
                      ++ (show_scalar max ++ (codes " min:" ++ (show_scalar min ++ codes "]")))))))

  unfoldable pub show_part : Bytes × Value F → Bytes
  unfolding show_value
  show_part (key, value) = key ++ (b'=' ∷ show_value value)

  unfoldable pub serialize_payload : Map Bytes (Value F) → Bytes
  unfolding show_part
  serialize_payload [] = []
  serialize_payload (entry ∷ payload) = join b';' (map show_part (entry ∷ payload))

  unfoldable pub to_lower : Bytes → Bytes
  to_lower s = if is_ascii s then map lower_byte s else runtime.lower_wide s

  float_or_text : Bytes → Option F → Scalar F
  float_or_text value (some x) = rounded x
  float_or_text value none = text value

  unfoldable pub parse_value : Bytes → Scalar F
  unfolding float_or_text
  parse_value value = elim (parse_int 32 value) [
    | some n ↦ int64 n
    | none ↦ float_or_text value (runtime.parse_float value)
  ]

  -- The case `len(values) >= 4` of a setting's range.
  add_range : Bytes → List Bytes → Map Bytes (Value F) → Map Bytes (Value F)
  unfolding parse_value
  add_range key (min ∷ (max ∷ (default ∷ (decimals ∷ _)))) payload =
      insert key
        (range (parse_value min) (parse_value max) (parse_value default) (parse_value decimals))
        payload
  add_range key _ payload = payload

  -- One round of the loop over the parts.
  unfoldable pub add_part : Function → Bytes → Map Bytes (Value F) → Map Bytes (Value F)
  unfolding to_lower parse_value add_range
  add_part function part payload = elim (split_two b'=' part) [
    | none ↦ payload
    | some (key, value) ↦
        (if function == get_setup_range_function
          then add_range (to_lower key) (split b',' value) payload
          else insert (to_lower key) (scalar (parse_value value)) payload)
  ]

  unfoldable pub add_parts : Function → List Bytes → Map Bytes (Value F) → Map Bytes (Value F)
  unfolding add_part
  add_parts function [] payload = payload
  add_parts function (part ∷ parts) payload =
      add_parts function parts (add_part function part payload)

  unfoldable pub parse_payload : Bytes → Function → Map Bytes (Value F)
  unfolding add_parts
  parse_payload payload_str function =
      if function == unknown_function
      then (codes "error", scalar (text payload_str)) ∷ []
      else add_parts function (split b';' payload_str) []
