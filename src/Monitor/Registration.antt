-- ===== src/Monitor/Registration.antt =====
-- monitor/monitor.go: the advanced monitor and a gauge that cannot be registered.
use boiler_mate.Prelude.{
  some-injective, ◌≡◌, refl, ◌∙◌, sym, true, false, inl, inr, Bool-cases, arith, [], ◌∷◌, Bytes,
  codes, Option, none, some, ◌==◌, bytes_eq, bytes_beq_iff, ◌&&◌, Option-cases,
}
use mathlib.Core.Path.{subst}
use boiler_mate.Go.Map.{Map, lookup, lookup-insert}
use boiler_mate.Nbe.Types.{Value, Scalar, scalar, int64, rounded, text, range}
use boiler_mate.Nbe.Action.{panic}
use boiler_mate.Monitor.{
  Libraries, Monitor, Loop, missing, set_gauge, update_gauge, add_gauge, note_change, is_numeric,
  advanced_entry, advanced_entries, advanced_response,
}

-- The subsystem of the operating data monitor, which the advanced monitor has as well.
abbrev subsystem : Bytes
subsystem = codes "operating_data"

-- What Prometheus documents of a registry: a gauge that was registered has its name taken, a taken
-- name is refused, and it stays taken.
pub record IsRegistry {F R : Type 0} (libraries : Libraries F R) : Type 1 where
  pub IsTaken : Bytes → Bytes → R → Type 0
  pub register-IsTaken :
      (group name : Bytes) (r : R)
      → (libraries.register group name r).1 ≡ true
      → IsTaken group name (libraries.register group name r).0
  pub taken_refused :
      (group name : Bytes) (r : R)
      → IsTaken group name r
      → (libraries.register group name r).1 ≡ false
  pub taken_stays :
      (group name group' name' : Bytes) (r : R)
      → IsTaken group name r
      → IsTaken group name (libraries.register group' name' r).0

set_gauge-ne :
    {F : Type 0} (key k : Bytes) (value : Value F) (gauges : Map Bytes (Option (Scalar F)))
    → (key == k) ≡ false
    → lookup k (set_gauge key value gauges) ≡ lookup k gauges
set_gauge-ne key k (scalar (int64 z)) gauges other =
    lookup-insert key k (some (int64 z)) gauges ∙ rw other refl
set_gauge-ne key k (scalar (rounded x)) gauges other =
    lookup-insert key k (some (rounded x)) gauges ∙ rw other refl
set_gauge-ne key k (scalar (text s)) gauges other = refl
set_gauge-ne key k (range low high default decimals) gauges other = refl

update_gauge-ne :
    {F : Type 0} (key k : Bytes) (value : Value F) (gauges : Map Bytes (Option (Scalar F)))
    → (key == k) ≡ false
    → lookup k (update_gauge key value gauges) ≡ lookup k gauges
unfolding update_gauge
update_gauge-ne key k value gauges other = elim (Option-cases (lookup key gauges)) [
  | inl none_there ↦ rw (update_gauge, none_there) refl
  | inr (old, there) ↦ rw (update_gauge, there) (set_gauge-ne key k value gauges other)
]

module _ {F R : Type 0} (libraries : Libraries F R) (registry : IsRegistry libraries) where
  add_gauge-ne :
      (key k : Bytes) (value : Value F) (m : Monitor F R)
      → (key == k) ≡ false
      → lookup k (add_gauge libraries subsystem key value m).0.gauges ≡ lookup k m.gauges
  unfolding add_gauge
  add_gauge-ne key k value m other =
      elim (Bool-cases (missing (lookup key m.gauges) && is_numeric value)) [
        | inl new ↦ rw new (lookup-insert key k none m.gauges ∙ rw other refl)
        | inr old ↦ rw old refl
      ]

  note_change-ne :
      (key k : Bytes) (value : Value F) (l : Loop F R)
      → (key == k) ≡ false
      → lookup k (note_change libraries key value l).monitor.gauges ≡ lookup k l.monitor.gauges
  unfolding note_change
  note_change-ne key k value l other =
      elim (Bool-cases (libraries.equal (lookup key l.monitor.cache) value)) [
        | inl same ↦ rw same refl
        | inr changed ↦ rw changed (update_gauge-ne key k value l.monitor.gauges other)
      ]

  note_change-registry :
      (key : Bytes) (value : Value F) (l : Loop F R)
      → (note_change libraries key value l).monitor.registry ≡ l.monitor.registry
  unfolding note_change
  note_change-registry key value l =
      elim (Bool-cases (libraries.equal (lookup key l.monitor.cache) value)) [
        | inl same ↦ rw same refl
        | inr changed ↦ rw changed refl
      ]

  add_gauge-IsTaken :
      (key k : Bytes) (value : Value F) (m : Monitor F R)
      → registry.IsTaken subsystem k m.registry
      → registry.IsTaken subsystem k (add_gauge libraries subsystem key value m).0.registry
  unfolding add_gauge
  add_gauge-IsTaken key k value m taken =
      elim (Bool-cases (missing (lookup key m.gauges) && is_numeric value)) [
        | inl new ↦ rw new (registry.taken_stays subsystem k subsystem key m.registry taken)
        | inr old ↦ rw old taken
      ]

  advanced_entry-panic :
      (k : Bytes) (value : Value F) (l : Loop F R)
      → registry.IsTaken subsystem k l.monitor.registry
      → is_numeric value ≡ true
      → lookup k l.monitor.gauges ≡ none
      → advanced_entry libraries subsystem k value l ≡ panic
  unfolding advanced_entry add_gauge
  advanced_entry-panic k value l taken numeric new =
      rw (new, numeric, registry.taken_refused subsystem k l.monitor.registry taken) refl

  advanced_entries-panic :
      (k : Bytes) (value : Value F) (payload : Map Bytes (Value F)) (l : Loop F R)
      → registry.IsTaken subsystem k l.monitor.registry
      → is_numeric value ≡ true
      → lookup k payload ≡ some value
      → lookup k l.monitor.gauges ≡ none
      → advanced_entries libraries payload l ≡ panic
  unfolding advanced_entries advanced_entry lookup
  advanced_entries-panic k value [] l taken numeric found new = ground arith
  advanced_entries-panic k value ((key, v) ∷ payload) l taken numeric found new =
      elim (Bool-cases (key == k)) [
        | inl here ↦
            let first : lookup k ((key, v) ∷ payload) ≡ some v = rw here refl in
            rw
              (
                (bytes_beq_iff key k).0 here,
                some-injective _ _ (sym first ∙ found),
                advanced_entry-panic k value l taken numeric new,
              )
              refl
        | inr other ↦
            let rest : lookup k ((key, v) ∷ payload) ≡ lookup k payload = rw other refl in
            let added : Monitor F R = (add_gauge libraries subsystem key v l.monitor).0 in
            elim (Bool-cases (add_gauge libraries subsystem key v l.monitor).1) [
              | inl registered ↦ rw registered (
                  advanced_entries-panic k value payload
                    (note_change libraries key v (record l { monitor = added }))
                    (subst (registry.IsTaken subsystem k)
                      (sym (note_change-registry key v (record l { monitor = added })))
                      (add_gauge-IsTaken key k v l.monitor taken))
                    numeric (sym rest ∙ found)
                    (note_change-ne key k v (record l { monitor = added }) other
                      ∙ add_gauge-ne key k v l.monitor other
                      ∙ new))
              | inr failed ↦ rw failed refl
            ]
      ]

  -- A numeric value whose name is taken in the subsystem operating_data, by another monitor, and for
  -- which the advanced monitor has no gauge yet, panics it; the registry is as documented.
  pub advanced_response-panic :
      (k : Bytes) (value : Value F) (payload : Map Bytes (Value F)) (m : Monitor F R)
      → registry.IsTaken subsystem k m.registry
      → is_numeric value ≡ true
      → lookup k payload ≡ some value
      → lookup k m.gauges ≡ none
      → advanced_response libraries payload m ≡ panic
  unfolding advanced_response
  advanced_response-panic k value payload m taken numeric found new =
      rw
        (advanced_entries-panic k value payload (record { monitor = m; change_set = [] }) taken
          numeric found new)
        refl
