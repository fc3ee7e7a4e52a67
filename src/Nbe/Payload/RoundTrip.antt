-- ===== src/Nbe/Payload/RoundTrip.antt =====
-- A payload that is written and read again.
use mathlib.Core.Path.{ap₂}
use boiler_mate.Prelude.{
  All-imp, ℕ, ◌<◌, ◌≡◌, ◌≢◌, ◌⊎◌, refl, ◌∙◌, ap, true, false, [], ◌∷◌, map, Bytes, none, some,
  arith, ◌==◌, bytes_eq, All, All-append,
}
use boiler_mate.Prelude.Int.{int_eq}
use boiler_mate.Go.Map.{Fresh, Map, insert, insert_all, insert_all-append, KeysNe}
use boiler_mate.Go.Parse.{parse_int, InBits, parse_int-format_int}
use boiler_mate.Go.Split.{split, split_two, split_two-part, split-join, lower_byte, is_ascii, Lacks}
use boiler_mate.Nbe.Types.{
  Runtime, Function, unknown_function, get_setup_range_function, Scalar, int64, rounded, text,
  Value, scalar, range,
}
use boiler_mate.Nbe.Payload.{
  show_scalar, show_value, show_part, serialize_payload, to_lower, parse_value, add_part, add_parts,
  parse_payload,
}

module _ {F : Type 0} (runtime : Runtime F) where
  -- The scalar's text is read as the same scalar: an integer of 32 bits, a float whose text is no
  -- such integer, a text that is no number.
  abbrev pub Reads : Scalar F → Type 0
  Reads (int64 z) = InBits 32 z
  Reads (rounded x) =
      (parse_int 32 (runtime.show_float x) ≡ none)
      × (runtime.parse_float (runtime.show_float x) ≡ some x)
  Reads (text s) = (parse_int 32 s ≡ none) × (runtime.parse_float s ≡ none)

  -- A byte that a key keeps: ASCII, no capital, and neither separator.
  abbrev pub IsKeyByte : ℕ → Type 0
  IsKeyByte c = (c < 128) × (c < b'A' ⊎ b'Z' < c) × (c ≢ b';') × (c ≢ b'=')

  -- An entry whose text is read as the same entry.
  abbrev pub IsPlain : Bytes × Value F → Type 0
  IsPlain (key, scalar v) = All IsKeyByte key × Lacks b';' (show_scalar runtime v) × Reads v
  IsPlain (key, range _ _ _ _) = ⊥

  -- An entry whose text is read as one entry, under the same key.
  abbrev pub IsWritable : Bytes × Value F → Type 0
  IsWritable (key, scalar v) = All IsKeyByte key × Lacks b';' (show_scalar runtime v)
  IsWritable (key, range _ _ _ _) = ⊥

  IsPlain-IsWritable : (entry : Bytes × Value F) → IsPlain entry → IsWritable entry
  IsPlain-IsWritable (key, scalar v) h = (h.0, h.1)
  IsPlain-IsWritable (key, range _ _ _ _) h = absurd h

  -- The payload as it is read from its text: a text that is a number becomes one.
  abbrev pub reread_value : Value F → Value F
  reread_value (scalar v) = scalar (parse_value runtime (show_scalar runtime v))
  reread_value (range min max default decimals) = range min max default decimals

  abbrev pub reread : Map Bytes (Value F) → Map Bytes (Value F)
  reread [] = []
  reread ((key, v) ∷ payload) = (key, reread_value v) ∷ reread payload

  pub parse_value-show_scalar :
      (v : Scalar F) → Reads v → parse_value runtime (show_scalar runtime v) ≡ v
  unfolding parse_value show_scalar
  parse_value-show_scalar (int64 z) h = rw (parse_int-format_int 32 z h, parse_value)
  parse_value-show_scalar (rounded x) h = rw (h.0, parse_value, h.1)
  parse_value-show_scalar (text s) h = rw (h.0, parse_value, h.1)

  lower_key : (key : Bytes) → All IsKeyByte key → (is_ascii key ≡ true) × (map lower_byte key ≡ key)
  unfolding is_ascii lower_byte
  lower_key [] h = (refl, refl)
  lower_key (c ∷ key) h = ground (arith, lower_key key h.1)

  to_lower-key : (key : Bytes) → All IsKeyByte key → to_lower runtime key ≡ key
  unfolding to_lower
  to_lower-key key h = rw ((lower_key key h).0, to_lower) ((lower_key key h).1)

  add_part-show_part :
      (function : Function) (entry : Bytes × Value F) (payload : Map Bytes (Value F))
      → (function == get_setup_range_function) ≡ false
      → IsWritable entry
      → add_part runtime function (show_part runtime entry) payload
        ≡ insert entry.0 (reread_value entry.1) payload
  unfolding add_part show_part show_value
  add_part-show_part function (key, scalar v) payload other h =
      rw
        (
          split_two-part b'=' key (show_scalar runtime v) (All-imp key (λ c k. k.3) h.0),
          add_part,
          other,
        )
        (ap (λ k. insert k (reread_value (scalar v)) payload) (to_lower-key key h.0))
  add_part-show_part function (key, range _ _ _ _) payload other h = absurd h

  add_parts-show :
      (function : Function) (entries payload : Map Bytes (Value F))
      → (function == get_setup_range_function) ≡ false
      → All IsWritable entries
      → add_parts runtime function (map (show_part runtime) entries) payload
        ≡ insert_all (reread entries) payload
  unfolding add_parts insert_all
  add_parts-show function [] payload other h = refl
  add_parts-show function (entry ∷ entries) payload other h =
      ap (add_parts runtime function (map (show_part runtime) entries))
        (add_part-show_part function entry payload other h.0)
      ∙ add_parts-show function entries (insert entry.0 (reread_value entry.1) payload) other h.1

  add_parts-nil : (function : Function) → add_parts runtime function (split b';' []) [] ≡ []
  unfolding add_parts split split_two
  add_parts-nil function = refl

  show_part-Lacks :
      (entry : Bytes × Value F) → IsWritable entry → Lacks b';' (show_part runtime entry)
  unfolding show_part show_value
  show_part-Lacks (key, scalar v) h =
      All-append (λ c. c ≢ b';') key (b'=' ∷ show_scalar runtime v) (All-imp key (λ c k. k.2) h.0)
        (omega arith, h.1)
  show_part-Lacks (key, range _ _ _ _) h = absurd h

  map-Lacks :
      (entries : Map Bytes (Value F))
      → All IsWritable entries
      → All (Lacks b';') (map (show_part runtime) entries)
  map-Lacks [] h = tt
  map-Lacks (entry ∷ entries) h = (show_part-Lacks entry h.0, map-Lacks entries h.1)

  reread-Fresh :
      (k : Bytes) (payload : Map Bytes (Value F)) → Fresh k payload → Fresh k (reread payload)
  reread-Fresh k [] h = tt
  reread-Fresh k ((j, v) ∷ payload) h = (h.0, reread-Fresh k payload h.1)

  pub reread-KeysNe : (payload : Map Bytes (Value F)) → KeysNe payload → KeysNe (reread payload)
  reread-KeysNe [] h = tt
  reread-KeysNe ((k, v) ∷ payload) h = (reread-Fresh k payload h.0, reread-KeysNe payload h.1)

  -- A payload of writable entries with different keys is read back under the same keys, for every
  -- function but the unknown one and `GetSetupRangeFunction`.
  pub parse_payload-reread :
      (function : Function) (payload : Map Bytes (Value F))
      → (function == unknown_function) ≡ false
      → (function == get_setup_range_function) ≡ false
      → All IsWritable payload
      → KeysNe payload
      → parse_payload runtime (serialize_payload runtime payload) function ≡ reread payload
  unfolding parse_payload serialize_payload
  parse_payload-reread function [] known other h d = rw known (add_parts-nil function)
  parse_payload-reread function (entry ∷ payload) known other h d =
      rw
        (
          known,
          split-join b';' (show_part runtime entry) (map (show_part runtime) payload)
              (show_part-Lacks entry h.0) (map-Lacks payload h.1),
        )
        (add_parts-show function (entry ∷ payload) [] other h
          ∙ insert_all-append (reread (entry ∷ payload)) [] (reread-KeysNe (entry ∷ payload) d))

  reread-IsPlain : (payload : Map Bytes (Value F)) → All IsPlain payload → reread payload ≡ payload
  reread-IsPlain [] h = refl
  reread-IsPlain ((key, scalar v) ∷ payload) h =
      ap₂ (λ w p. (key, scalar w) ∷ p) (parse_value-show_scalar v h.0.2)
        (reread-IsPlain payload h.1)
  reread-IsPlain ((key, range _ _ _ _) ∷ payload) h = absurd h.0

  -- A payload of plain entries with different keys is read back entry by entry, for every function
  -- but the unknown one and GetSetupRangeFunction.
  pub parse_payload-serialize_payload :
      (function : Function) (payload : Map Bytes (Value F))
      → (function == unknown_function) ≡ false
      → (function == get_setup_range_function) ≡ false
      → All IsPlain payload
      → KeysNe payload
      → parse_payload runtime (serialize_payload runtime payload) function ≡ payload
  parse_payload-serialize_payload function payload known other h d =
      parse_payload-reread function payload known other (All-imp payload IsPlain-IsWritable h) d
      ∙ reread-IsPlain payload h
