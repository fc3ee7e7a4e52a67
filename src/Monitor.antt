-- ===== src/Monitor.antt =====
-- monitor/monitor.go: what a monitor does with a response. A monitor's state is what its closure
-- captures, with the registry of Prometheus; the result is the change set that it publishes.
pub mod Changes
pub mod States
pub mod Round
pub mod Published
pub mod Registration
pub mod Fixtures
mod Examples
use boiler_mate.Prelude.{
  ◌≡◌, ℕ, zero, suc, Bool, true, false, List, [], ◌∷◌, Bytes, codes, Option, none, some,
  if◌then◌else◌, ◌==◌, bytes_eq, ◌&&◌,
}
use boiler_mate.Prelude.Int.{ℤ, pos, negsuc, int_eq}
use boiler_mate.Go.Map.{Map, lookup, insert}
use boiler_mate.Nbe.Types.{Scalar, int64, rounded, text, Value, scalar, range, power_states}
use boiler_mate.Nbe.Action.{Outcome, ok, err, panic}

-- What the monitors use of go-cmp and of Prometheus, whose registry is a value of `R`.
pub record Libraries (F R : Type 0) : Type 0 where
  -- `cmp.Equal`; `none` is a nil interface
  pub equal : Option (Value F) → Value F → Bool
  -- `prometheus.Register` of a gauge of a subsystem and a name, and whether it succeeds
  pub register : Bytes → Bytes → R → R × Bool

-- What cmp.Equal documents of the values that a payload holds.
pub record IsEqual {F R : Type 0} (libraries : Libraries F R) : Type 0 where
  pub equal_self : (v : Value F) → libraries.equal (some v) v ≡ true
  pub equal_nil : (v : Value F) → libraries.equal none v ≡ false

-- The cache, the gauges with the value that each was last set to, the registry, whether no
-- response came yet, and the signals in the channel `ready`, which holds one.
pub record Monitor (F R : Type 0) : Type 0 where
  pub cache : Map Bytes (Value F)
  pub gauges : Map Bytes (Option (Scalar F))
  pub registry : R
  pub first_publish : Bool
  pub ready : Bool

-- The loop over a payload, with the change set so far.
pub record Loop (F R : Type 0) : Type 0 where
  pub monitor : Monitor F R
  pub change_set : Map Bytes (Value F)

-- `nbe.PowerStates[curState]`; `none` is an index out of range.
unfoldable pub state_at : ℤ → List Bytes → Option Bytes
state_at z [] = none
state_at (pos zero) (s ∷ ss) = some s
state_at (pos (suc n)) (s ∷ ss) = state_at (pos n) ss
state_at (negsuc n) (s ∷ ss) = none

module _ {F : Type 0} where
  -- `isNumeric`.
  unfoldable pub is_numeric : Value F → Bool
  is_numeric (scalar (int64 z)) = true
  is_numeric (scalar (rounded x)) = true
  is_numeric (scalar (text s)) = false
  is_numeric (range low high default decimals) = false

  abbrev set_gauge : Bytes → Value F → Map Bytes (Option (Scalar F)) → Map Bytes (Option (Scalar F))
  set_gauge key (scalar (int64 z)) gauges = insert key (some (int64 z)) gauges
  set_gauge key (scalar (rounded x)) gauges = insert key (some (rounded x)) gauges
  set_gauge key (scalar (text s)) gauges = gauges
  set_gauge key (range low high default decimals) gauges = gauges

  -- `updateGauge`, at the gauge of a key.
  unfoldable pub update_gauge :
      Bytes → Value F → Map Bytes (Option (Scalar F)) → Map Bytes (Option (Scalar F))
  update_gauge key value gauges = elim (lookup key gauges) [
    | none ↦ gauges
    | some old ↦ set_gauge key value gauges
  ]

  abbrev missing : Option (Option (Scalar F)) → Bool
  missing none = true
  missing (some old) = false

  module _ {R : Type 0} where
    -- The signal after the first response.
    unfoldable pub signal : Monitor F R → Monitor F R
    signal m = if m.first_publish then record m { ready = true; first_publish = false } else m

    -- The part of `if changed` for the key `state`.
    unfoldable pub state_texts : Value F → Loop F R → Outcome (Loop F R)
    unfolding state_at
    state_texts (scalar (int64 z)) l = elim (state_at z power_states) [
      | none ↦ panic
      | some name ↦ ok (record l {
        change_set =
            insert (codes "state_on")
              (scalar (text (if z == pos 14 then codes "OFF" else codes "ON")))
              (insert (codes "state_text") (scalar (text name)) l.change_set);
      })
    ]
    state_texts (scalar (rounded x)) l = ok l
    state_texts (scalar (text s)) l = ok l
    state_texts (range low high default decimals) l = ok l

    abbrev pub and_then : Outcome (Loop F R) → (Loop F R → Outcome (Loop F R)) → Outcome (Loop F R)
    and_then (ok l) next = next l
    and_then (err e) next = err e
    and_then panic next = panic

    module _ (libraries : Libraries F R) where
      -- Publish if changed.
      unfoldable pub note_change : Bytes → Value F → Loop F R → Loop F R
      unfolding update_gauge
      note_change key value l =
          if libraries.equal (lookup key l.monitor.cache) value then l else record {
            monitor = record l.monitor {
              cache = insert key value l.monitor.cache;
              gauges = update_gauge key value l.monitor.gauges;
            };
            change_set = insert key value l.change_set;
          }

      module _ (subsystem : Bytes) where
        -- A new gauge for a number that has none, and whether it was registered.
        unfoldable pub add_gauge : Bytes → Value F → Monitor F R → Monitor F R × Bool
        unfolding is_numeric
        add_gauge key value m =
            let registered = libraries.register subsystem key m.registry in
            if missing (lookup key m.gauges) && is_numeric value
            then (
              record m { gauges = insert key none m.gauges; registry = registered.0 },
              registered.1,
            )
            else (m, true)

        -- One round of the loop of a settings monitor: a failure to register is only logged.
        unfoldable pub settings_entry : Bytes → Value F → Loop F R → Loop F R
        unfolding add_gauge note_change
        settings_entry key value l =
            note_change key value (record l { monitor = (add_gauge key value l.monitor).0 })

        unfoldable pub settings_entries : Map Bytes (Value F) → Loop F R → Loop F R
        unfolding settings_entry
        settings_entries [] l = l
        settings_entries ((key, value) ∷ payload) l =
            settings_entries payload (settings_entry key value l)

        -- The callback of `StartSettingsMonitor`.
        unfoldable pub settings_response :
            Map Bytes (Value F) → Monitor F R → Monitor F R × Map Bytes (Value F)
        unfolding settings_entries signal
        settings_response payload m =
            let done = settings_entries payload (record { monitor = m; change_set = [] }) in
            (signal done.monitor, done.change_set)

        -- One round of the loop of the advanced monitor: a failure to register panics.
        unfoldable pub advanced_entry : Bytes → Value F → Loop F R → Outcome (Loop F R)
        unfolding add_gauge note_change
        advanced_entry key value l =
            let added = add_gauge key value l.monitor in
            if added.1 then ok (note_change key value (record l { monitor = added.0 })) else panic

      -- One round of the loop of the operating data monitor.
      unfoldable pub operating_entry : Bytes → Value F → Loop F R → Outcome (Loop F R)
      unfolding advanced_entry state_texts
      operating_entry key value l =
          let after = advanced_entry (codes "operating_data") key value l in
          if libraries.equal (lookup key l.monitor.cache) value
          then after
          else if key == codes "state"
          then and_then after (state_texts value)
          else after

      unfoldable pub operating_entries : Map Bytes (Value F) → Loop F R → Outcome (Loop F R)
      unfolding operating_entry
      operating_entries [] l = ok l
      operating_entries ((key, value) ∷ payload) l =
          and_then (operating_entry key value l) (λ l'. operating_entries payload l')

      unfoldable pub advanced_entries : Map Bytes (Value F) → Loop F R → Outcome (Loop F R)
      unfolding advanced_entry
      advanced_entries [] l = ok l
      advanced_entries ((key, value) ∷ payload) l =
          and_then (advanced_entry (codes "operating_data") key value l)
            (λ l'. advanced_entries payload l')

      abbrev finish :
          (Monitor F R → Monitor F R)
          → Outcome (Loop F R)
          → Outcome (Monitor F R × Map Bytes (Value F))
      finish f (ok l) = ok (f l.monitor, l.change_set)
      finish f (err e) = err e
      finish f panic = panic

      -- The callback of `StartOperatingDataMonitor`.
      unfoldable pub operating_response :
          Map Bytes (Value F) → Monitor F R → Outcome (Monitor F R × Map Bytes (Value F))
      unfolding operating_entries signal
      operating_response payload m =
          finish signal (operating_entries payload (record { monitor = m; change_set = [] }))

      -- The callback of `StartAdvancedDataMonitor`.
      unfoldable pub advanced_response :
          Map Bytes (Value F) → Monitor F R → Outcome (Monitor F R × Map Bytes (Value F))
      unfolding advanced_entries
      advanced_response payload m =
          finish (λ m'. m') (advanced_entries payload (record { monitor = m; change_set = [] }))
