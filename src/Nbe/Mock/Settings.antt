-- ===== src/Nbe/Mock/Settings.antt =====
-- The table of settings: what is set is read back, and nothing else changes.
use boiler_mate.Prelude.{
  bytes_beq_iff, ◌≡◌, refl, ◌∙◌, ap, ◌&&◌, [], ◌∷◌, ◌++◌, Bytes, Option, some, none, ◌==◌, bytes_eq,
  if◌then◌else◌, Bool-cases, Option-cases, inl, inr,
}
use boiler_mate.Prelude.Int.{int_eq}
use boiler_mate.Go.Map.{Map, lookup, insert, lookup-insert, beq_refl}
use boiler_mate.Go.Split.{split_two, split_two-part, Lacks}
use boiler_mate.Nbe.Types.{Scalar, text}
use boiler_mate.Nbe.Types.{set_setup_function}
use boiler_mate.Nbe.Response
use boiler_mate.Nbe.Mock.{
  send, packed, set_setup, process_request, NbeRequest, NbeResponse, Runtime, Outcome, ok, err,
  panic, MockBoiler, Table, get_value, set_value, set_data, get_data, whole_category, or_empty,
  one_entry,
}

module _ {F : Type 0} where
  -- An entry of a category that may be missing.
  in_category : Bytes → Option (Map Bytes (Scalar F)) → Option (Scalar F)
  in_category key none = none
  in_category key (some entries) = lookup key entries

  get_value-in_category :
      (category key : Bytes) (m : Table F)
      → get_value category key m ≡ in_category key (lookup category m)
  unfolding get_value in_category
  get_value-in_category category key m = elim (Option-cases (lookup category m)) [
    | inl missing ↦ rw (missing, get_value)
    | inr (entries, found) ↦ rw (found, get_value)
  ]

  lookup-or_empty :
      (key : Bytes) (o : Option (Map Bytes (Scalar F)))
      → lookup key (or_empty o) ≡ in_category key o
  unfolding lookup in_category
  lookup-or_empty key none = refl
  lookup-or_empty key (some entries) = refl

  pub get_value-set_value_here :
      (category key key' : Bytes) (value : Scalar F) (m : Table F)
      → get_value category key' (set_value category key value m)
        ≡ (if key == key' then some value else get_value category key' m)
  unfolding set_value in_category get_value
  get_value-set_value_here category key key' value m = rw (
    get_value-in_category category key' (set_value category key value m),
    lookup-insert category category (insert key value (or_empty (lookup category m))) m,
    beq_refl category,
    in_category,
    lookup-insert key key' value (or_empty (lookup category m)),
    lookup-or_empty key' (lookup category m),
    get_value-in_category category key' m,
  )

  -- A value that is set is read back under its category and key, and every other one is as before.
  pub get_value-set_value :
      (category key category' key' : Bytes) (value : Scalar F) (m : Table F)
      → get_value category' key' (set_value category key value m)
        ≡ (if category == category' && key == key' then some value else get_value category' key' m)
  get_value-set_value category key category' key' value m =
      elim (Bool-cases (category == category')) [
        | inl same ↦
            rw (same, ← (bytes_beq_iff category category').0 same)
              (get_value-set_value_here category key key' value m)
        | inr other ↦
            rw
              (
                other,
                get_value-in_category category' key' (set_value category key value m),
                get_value-in_category category' key' m,
              )
              (ap (in_category key') (
                unfold set_value in
                lookup-insert category category' (insert key value (or_empty (lookup category m))) m
                ∙ rw other))
      ]

  pub set_data-set_value :
      (category key value : Bytes) (m : Table F)
      → Lacks b'.' category
      → set_data (category ++ (b'.' ∷ key)) value m ≡ set_value category key (text value) m
  unfolding set_data
  set_data-set_value category key value m no_dot =
      rw (split_two-part b'.' category key no_dot, set_data)

  pub get_data-get_value :
      (category key : Bytes) (m : Table F)
      → Lacks b'.' category
      → whole_category (category ++ (b'.' ∷ key)) ≡ none
      → get_data (category ++ (b'.' ∷ key)) m ≡ one_entry key (get_value category key m)
  unfolding get_data
  get_data-get_value category key m no_dot single =
      rw (single, get_data, split_two-part b'.' category key no_dot)

  -- A path of a category and a key, that names no whole category, is set and then read as that
  -- one value.
  pub get_data-set_data :
      (category key value : Bytes) (m : Table F)
      → Lacks b'.' category
      → whole_category (category ++ (b'.' ∷ key)) ≡ none
      → get_data (category ++ (b'.' ∷ key)) (set_data (category ++ (b'.' ∷ key)) value m)
        ≡ (key, text value) ∷ []
  unfolding one_entry
  get_data-set_data category key value m no_dot single =
      get_data-get_value category key (set_data (category ++ (b'.' ∷ key)) value m) no_dot single
      ∙ rw (
        set_data-set_value category key value m no_dot,
        get_value-set_value_here category key key (text value) m,
        beq_refl key,
      )

  set_setup-settings :
      (mb : MockBoiler F) (request : NbeRequest) (path value : Bytes)
      → split_two b'=' request.payload ≡ some (path, value)
      → (set_setup mb request).0.settings ≡ set_data path value mb.settings
  unfolding set_setup
  set_setup-settings mb request path value parts = rw (set_setup, parts)

  -- A set request whose path has no equals sign sets the path.
  pub process_request-settings :
      (mb : MockBoiler F) (request : NbeRequest) (path value : Bytes)
      → request.function ≡ set_setup_function
      → request.payload ≡ path ++ (b'=' ∷ value)
      → Lacks b'=' path
      → (process_request mb request).0.settings ≡ set_data path value mb.settings
  unfolding process_request
  process_request-settings mb request path value is_set is_path plain = simp is_set (
      set_setup-settings mb request path value
        (ap (split_two b'=') is_path ∙ split_two-part b'=' path value plain))

  packed-state :
      (runtime : Runtime F) (mb : MockBoiler F) (o : Outcome (Unit {0})) (packet : Bytes)
      → (packed runtime mb o packet).0 ≡ mb
  unfolding packed
  packed-state runtime mb (ok _) packet = refl
  packed-state runtime mb (err e) packet = refl
  packed-state runtime mb panic packet = refl

  -- Sending an answer keeps the state.
  pub send-state :
      (runtime : Runtime F) (p : MockBoiler F × NbeResponse F) → (send runtime p).0 ≡ p.0
  unfolding send
  send-state runtime (mb, response) =
      packed-state runtime mb (Response.pack runtime response []).0
        (Response.pack runtime response []).1
