-- ===== src/Monitor/Examples.antt =====
-- monitor/monitor.go: tests, and the theorems at a concrete boiler.
use boiler_mate.Prelude.{
  if◌then◌else◌, Bool-cases, inl, inr, none, ◌∙◌, ◌++◌, ℕ, ◌≡◌, refl, arith, true, false, Bool, [],
  ◌∷◌, Bytes, codes, Option, some, ◌==◌, bytes_eq, nat_eq,
}
use boiler_mate.Prelude.Int.{pos, int_eq}
use boiler_mate.Go.Map.{lookup-insert, Map, lookup, insert, beq_refl}
use boiler_mate.Nbe.Types.{int64, text, Value, scalar}
use boiler_mate.Nbe.Action.{ok, panic}
use boiler_mate.Monitor.{
  note_change, add_gauge, settings_entry, advanced_response, Libraries, Monitor, settings_response,
  operating_response, is_numeric,
}
use boiler_mate.Monitor.Fixtures.{value_beq, libraries, start}
use boiler_mate.Monitor.Changes.{changed, settings_response-changes}
use boiler_mate.Monitor.Registration.{IsRegistry, advanced_response-panic}
use boiler_mate.Monitor.States.{
  operating_response-panic, operating_response-settings, has_refused, is_refused,
}

abbrev payload : Map Bytes (Value ℕ)
payload =
    (codes "temp", scalar (int64 (pos 65))) ∷ (codes "name", scalar (text (codes "pellet"))) ∷ []

only_name :
    (settings_response libraries (codes "boiler") payload start).1
    ≡ (codes "name", scalar (text (codes "pellet"))) ∷ []
unfolding settings_response lookup insert is_numeric
only_name = refl

settings_response-changes_example :
    lookup (codes "name") (settings_response libraries (codes "boiler") payload start).1
    ≡ changed libraries (codes "boiler") start (codes "name") (lookup (codes "name") payload)
settings_response-changes_example =
    settings_response-changes libraries (codes "boiler") payload start (codes "name")
      ((refl, tt), (tt, tt))

operating_response-panic_example :
    operating_response libraries ((codes "state", scalar (int64 (pos 32))) ∷ []) start ≡ panic
unfolding lookup
operating_response-panic_example =
    operating_response-panic libraries (pos 32) ((codes "state", scalar (int64 (pos 32))) ∷ [])
      start (omega arith) refl refl

-- A registry that is the table of the taken names, and refuses them.
abbrev strict : Option (Unit {0}) → Bytes → Map Bytes (Unit {0}) → Map Bytes (Unit {0}) × Bool
strict none name taken = (insert name tt taken, true)
strict (some u) name taken = (taken, false)

abbrev full_name : Bytes → Bytes → Bytes
full_name group name = group ++ (b'_' ∷ name)

abbrev strict_libraries : Libraries ℕ (Map Bytes (Unit {0}))
strict_libraries = record {
  equal = value_beq;
  register = λ group name r. strict (lookup (full_name group name) r) (full_name group name) r;
}

strict-inserted :
    (o : Option (Unit {0})) (name : Bytes) (r : Map Bytes (Unit {0}))
    → (strict o name r).1 ≡ true
    → lookup name (strict o name r).0 ≡ some tt
strict-inserted none name r e = lookup-insert name name tt r ∙ rw (beq_refl name) refl
strict-inserted (some u) name r e = ground arith

strict-stays :
    (o : Option (Unit {0})) (name name' : Bytes) (r : Map Bytes (Unit {0}))
    → lookup name r ≡ some tt
    → lookup name (strict o name' r).0 ≡ some tt
strict-stays none name name' r e =
    lookup-insert name' name tt r
    ∙ (elim (Bool-cases (name' == name)) [ inl same ↦ rw same refl | inr other ↦ rw other e ])
strict-stays (some u) name name' r e = e

abbrev strict-IsRegistry : IsRegistry strict_libraries
strict-IsRegistry = record {
  IsTaken = λ group name r. lookup (full_name group name) r ≡ some tt;
  register-IsTaken = λ group name r e.
      strict-inserted (lookup (full_name group name) r) (full_name group name) r e;
  taken_refused = λ group name r taken. rw taken refl;
  taken_stays = λ group name group' name' r taken.
      strict-stays (lookup (full_name group' name') r) (full_name group name)
        (full_name group' name') r taken;
}

-- An advanced monitor beside an operating data monitor that has registered `temp`.
abbrev beside : Monitor ℕ (Map Bytes (Unit {0}))
beside = record {
  cache = [];
  gauges = [];
  registry = (full_name (codes "operating_data") (codes "temp"), tt) ∷ [];
  first_publish = true;
  ready = false;
}

advanced_response-panic_example : advanced_response strict_libraries payload beside ≡ panic
unfolding lookup is_numeric
advanced_response-panic_example =
    advanced_response-panic strict_libraries strict-IsRegistry (codes "temp")
      (scalar (int64 (pos 65))) payload beside refl refl refl refl

-- The name is taken, so the gauge is refused; without an entry in the registry it is not.
refused : has_refused strict_libraries payload (record { monitor = beside; change_set = [] }) ≡ true
unfolding has_refused is_refused lookup is_numeric
refused = refl

taken :
    has_refused strict_libraries payload
      (record { monitor = record beside { registry = [] }; change_set = [] })
    ≡ false
unfolding has_refused is_refused lookup is_numeric settings_entry add_gauge note_change insert
taken = refl

operating_response-settings_example : operating_response strict_libraries payload beside ≡ (
    if has_refused strict_libraries payload (record { monitor = beside; change_set = [] })
    then panic
    else ok (settings_response strict_libraries (codes "operating_data") payload beside))
operating_response-settings_example =
    operating_response-settings strict_libraries payload beside (refl, (refl, tt))
