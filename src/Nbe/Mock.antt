-- ===== src/Nbe/Mock.antt =====
-- nbe/mock_boiler.go: the simulated boiler that answers requests. Its state is the table of
-- settings; each request is one step, as its lock makes it.
pub mod Server
pub mod Decryption
pub mod Settings
pub mod Plain
pub mod Category
pub mod Initial
use boiler_mate.Prelude.{
  ℕ, ◌-◌, Bool, false, [], ◌∷◌, ◌++◌, Bytes, codes, Option, some, none, eqb, ltb, if◌then◌else◌,
  length, take, drop, replicate, ◌==◌, bytes_eq,
}
use boiler_mate.Prelude.Int.{int_eq}
use boiler_mate.Go.BigInt.{from_bytes, to_bytes, exp}
use boiler_mate.Go.Map.{Map, lookup, insert, insert_all}
use boiler_mate.Go.Split.{split_two, cut_suffix}
use boiler_mate.Nbe.Types.{
  Runtime, Scalar, text, Value, scalar, discovery_function, get_setup_function, set_setup_function,
  get_operating_data_function, get_advanced_data_function,
}
use boiler_mate.Nbe.Action.{Outcome, ok, err, panic}
use boiler_mate.Nbe.Request.{NbeRequest}
use boiler_mate.Nbe.Request
use boiler_mate.Nbe.Response.{NbeResponse}
use boiler_mate.Nbe.Response

-- `rsa.PrivateKey`, as far as it is used.
pub record PrivateKey : Type 0 where
  pub modulus : ℕ
  pub secret : ℕ

-- `map[string]map[string]interface{}`.
abbrev pub Table : Type 0 → Type 0
Table F = Map Bytes (Map Bytes (Scalar F))

pub record MockBoiler (F : Type 0) : Type 0 where
  pub serial : Bytes
  pub settings : Table F
  pub rsa_private_key : PrivateKey
  pub rsa_key_base64 : Bytes

-- `path == "*" || HasSuffix(path, ".*")`, with the path without that suffix.
unfoldable pub whole_category : Bytes → Option Bytes
whole_category path = if path == codes "*" then some path else cut_suffix (codes ".*") path

module _ {F : Type 0} where
  abbrev pub or_empty : Option (Map Bytes (Scalar F)) → Map Bytes (Scalar F)
  or_empty none = []
  or_empty (some entries) = entries

  -- The payload that holds the entries of a category.
  unfoldable pub as_payload : Map Bytes (Scalar F) → Map Bytes (Value F)
  as_payload [] = []
  as_payload ((k, v) ∷ entries) = (k, scalar v) ∷ as_payload entries

  -- `m.data[category][key] = value`, with a new category where there is none: `SetValue`.
  unfoldable pub set_value : Bytes → Bytes → Scalar F → Table F → Table F
  set_value category key value m =
      insert category (insert key value (or_empty (lookup category m))) m

  -- `GetValue`.
  unfoldable pub get_value : Bytes → Bytes → Table F → Option (Scalar F)
  get_value category key m = elim (lookup category m) [
    | none ↦ none
    | some entries ↦ lookup key entries
  ]

  -- `setData`: a path without a dot is dropped.
  unfoldable pub set_data : Bytes → Bytes → Table F → Table F
  unfolding set_value
  set_data path value m = elim (split_two b'.' path) [
    | none ↦ m
    | some (category, key) ↦ set_value category key (text value) m
  ]

  -- The entries of a category under their full names.
  prefixed : Bytes → Map Bytes (Scalar F) → Map Bytes (Scalar F)
  prefixed category [] = []
  prefixed category ((k, v) ∷ entries) = (category ++ (b'.' ∷ k), v) ∷ prefixed category entries

  all_entries : Table F → Map Bytes (Scalar F) → Map Bytes (Scalar F)
  unfolding prefixed insert_all
  all_entries [] result = result
  all_entries ((category, entries) ∷ m) result =
      all_entries m (insert_all (prefixed category entries) result)

  unfoldable pub one_entry : Bytes → Option (Scalar F) → Map Bytes (Scalar F)
  one_entry key none = []
  one_entry key (some v) = (key, v) ∷ []

  unfoldable pub get_data : Bytes → Table F → Map Bytes (Scalar F)
  unfolding all_entries whole_category one_entry get_value
  get_data path m = elim (whole_category path) [
    | some category ↦
        (if category == codes "*" then all_entries m [] else or_empty (lookup category m))
    | none ↦ elim (split_two b'.' path) [
      | none ↦ []
      | some (category, key) ↦ one_entry key (get_value category key m)
    ]
  ]

  -- The answer to a request, and the table after it.
  reply : NbeRequest → Map Bytes (Value F) → NbeResponse F
  reply request payload = record {
    app_id = request.app_id;
    controller_id = request.controller_id;
    function = request.function;
    seq_no = request.seq_no;
    status = 0;
    payload = payload;
  }

  abbrev pub status_ok : Map Bytes (Value F)
  status_ok = (codes "status", scalar (text (codes "ok"))) ∷ []

  unfoldable pub set_setup : MockBoiler F → NbeRequest → MockBoiler F × NbeResponse F
  unfolding reply set_data
  set_setup mb request = elim (split_two b'=' request.payload) [
    | none ↦ (mb, reply request [])
    | some (path, value) ↦
        (record mb { settings = set_data path value mb.settings }, reply request status_ok)
  ]

  unfoldable pub process_request : MockBoiler F → NbeRequest → MockBoiler F × NbeResponse F
  unfolding reply set_setup get_data as_payload
  process_request mb request =
      if request.function == discovery_function
      then (
        mb,
        reply request (
            (codes "serial", scalar (text mb.serial))
            ∷ (codes "rsa_key", scalar (text mb.rsa_key_base64))
            ∷ []),
      )
      else if request.function == get_setup_function
      then (mb, reply request (as_payload (get_data request.payload mb.settings)))
      else if request.function == get_operating_data_function
      then (mb, reply request (as_payload (or_empty (lookup (codes "operating") mb.settings))))
      else if request.function == get_advanced_data_function
      then (mb, reply request (as_payload (or_empty (lookup (codes "advanced") mb.settings))))
      else if request.function == set_setup_function
      then set_setup mb request
      else (mb, reply request ((codes "error", scalar (text (codes "unsupported function"))) ∷ []))

-- The plain packet for an encrypted one: the number's bytes, filled up to 64 with zeros in front.
-- `none` where they are more than 64.
unfoldable pub decrypt : PrivateKey → Bytes → Option Bytes
decrypt key packet =
    let decrypted = to_bytes (exp (from_bytes (drop 19 packet)) key.secret key.modulus) in
    if ltb 64 (length decrypted)
    then none
    else some (take 18 packet ++ (b' ' ∷ (replicate (64 - length decrypted) 0 ++ decrypted)))

abbrev pub starts_encrypted : Bytes → Bool
starts_encrypted (c ∷ (_ ∷ _)) = eqb c b'*'
starts_encrypted _ = false

-- `len(data) > 19 && data[18] == '*'`.
abbrev pub is_encrypted : Bytes → Bool
is_encrypted packet = starts_encrypted (drop 18 packet)

module _ {F : Type 0} (runtime : Runtime F) where
  packed : MockBoiler F → Outcome (Unit {0}) → Bytes → MockBoiler F × Outcome (Option Bytes)
  packed mb (ok _) packet = (mb, ok (some packet))
  packed mb (err e) packet = (mb, ok none)
  packed mb panic packet = (mb, panic)

  -- The bytes that are sent back, if the response is packed with no error.
  unfoldable pub send : MockBoiler F × NbeResponse F → MockBoiler F × Outcome (Option Bytes)
  unfolding packed
  send p = let done = Response.pack runtime p.1 [] in packed p.0 done.0 done.1

  answer : MockBoiler F → Outcome NbeRequest → MockBoiler F × Outcome (Option Bytes)
  unfolding send process_request
  answer mb (ok request) = send (process_request mb request)
  answer mb (err e) = (mb, ok none)
  answer mb panic = (mb, panic)

  handle_plain : MockBoiler F → Option Bytes → MockBoiler F × Outcome (Option Bytes)
  unfolding answer
  handle_plain mb none = (mb, ok none)
  handle_plain mb (some packet) = answer mb (Request.unpack packet).0

  -- `handleRequest`: the state after a packet, and the packet that is sent back, if there is one.
  unfoldable pub handle_request : MockBoiler F → Bytes → MockBoiler F × Outcome (Option Bytes)
  unfolding handle_plain decrypt
  handle_request mb packet =
      if ltb (length packet) 20
      then (mb, ok none)
      else handle_plain mb
          (if is_encrypted packet then decrypt mb.rsa_private_key packet else some packet)
