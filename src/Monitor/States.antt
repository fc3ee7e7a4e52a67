-- ===== src/Monitor/States.antt =====
-- monitor/monitor.go: the state texts of the operating data monitor and its panics.
use boiler_mate.Monitor.Changes.{entry-cache-ne}
use boiler_mate.Prelude.{
  ◌&&◌, Bool, some-injective, bytes_beq_iff, ℕ, zero, suc, ◌≤◌, ◌≡◌, refl, ◌∙◌, sym, true, false,
  inl, inr, Bool-cases, arith, List, [], ◌∷◌, Bytes, codes, none, some, if◌then◌else◌, ◌==◌,
  bytes_eq, length,
}
use boiler_mate.Prelude.Int.{ℤ, pos, negsuc, int_eq}
use boiler_mate.Go.Map.{Map, lookup, Fresh}
use boiler_mate.Nbe.Types.{Value, scalar, int64, power_states}
use boiler_mate.Nbe.Action.{ok, panic}
use boiler_mate.Monitor.{
  missing, is_numeric, settings_response, settings_entries, settings_entry, Libraries, Monitor,
  Loop, add_gauge, advanced_entry, state_at, state_texts, operating_entry, operating_entries,
  operating_response,
}

state_at-pos : (n : ℕ) (names : List Bytes) → length names ≤ n → state_at (pos n) names ≡ none
unfolding state_at
state_at-pos n [] out = refl
state_at-pos zero (s ∷ names) out = absurd (omega arith)
state_at-pos (suc n) (s ∷ names) out = state_at-pos n names (omega arith)

-- A number that is no index of the power states.
abbrev pub OutOfRange : ℤ → Type 0
OutOfRange (pos n) = 32 ≤ n
OutOfRange (negsuc n) = Unit

state_at-OutOfRange : (z : ℤ) → OutOfRange z → state_at z power_states ≡ none
unfolding state_at
state_at-OutOfRange (pos n) out = state_at-pos n power_states out
state_at-OutOfRange (negsuc n) out = refl

module _ {F R : Type 0} (libraries : Libraries F R) where
  abbrev subsystem : Bytes
  subsystem = codes "operating_data"

  -- Without a failure to register an entry is treated as in a settings monitor.
  advanced_entry-settings :
      (key : Bytes) (value : Value F) (l : Loop F R)
      → advanced_entry libraries subsystem key value l ≡ (
          if (add_gauge libraries subsystem key value l.monitor).1
          then ok (settings_entry libraries subsystem key value l)
          else panic)
  unfolding advanced_entry settings_entry
  advanced_entry-settings key value l = refl

  operating_entry-ne :
      (key : Bytes) (value : Value F) (l : Loop F R)
      → (key == codes "state") ≡ false
      → operating_entry libraries key value l ≡ advanced_entry libraries subsystem key value l
  unfolding operating_entry
  operating_entry-ne key value l other =
      elim (Bool-cases (libraries.equal (lookup key l.monitor.cache) value)) [
        | inl same ↦ rw same refl
        | inr changed ↦ rw (changed, other) refl
      ]

  -- A changed state outside the table of texts panics.
  operating_entry-panic :
      (z : ℤ) (l : Loop F R)
      → OutOfRange z
      → libraries.equal (lookup (codes "state") l.monitor.cache) (scalar (int64 z)) ≡ false
      → operating_entry libraries (codes "state") (scalar (int64 z)) l ≡ panic
  unfolding operating_entry state_texts
  operating_entry-panic z l out changed =
      rw (changed, advanced_entry-settings (codes "state") (scalar (int64 z)) l)
        (elim (Bool-cases
          (add_gauge libraries subsystem (codes "state") (scalar (int64 z)) l.monitor).1) [
            | inl added ↦ rw (added, state_at-OutOfRange z out) refl
            | inr failed ↦ rw failed refl
          ])

  operating_entries-panic :
      (z : ℤ) (payload : Map Bytes (Value F)) (l : Loop F R)
      → OutOfRange z
      → lookup (codes "state") payload ≡ some (scalar (int64 z))
      → libraries.equal (lookup (codes "state") l.monitor.cache) (scalar (int64 z)) ≡ false
      → operating_entries libraries payload l ≡ panic
  unfolding operating_entries lookup
  operating_entries-panic z [] l out found changed = ground arith
  operating_entries-panic z ((key, value) ∷ payload) l out found changed =
      elim (Bool-cases (key == codes "state")) [
        | inl here ↦
            let first : lookup (codes "state") ((key, value) ∷ payload) ≡ some value =
              rw here refl in
            let head : some value ≡ some (scalar (int64 z)) = sym first ∙ found in
            rw
              (
                (bytes_beq_iff key (codes "state")).0 here,
                some-injective _ _ head,
                operating_entry-panic z l out changed,
              )
              refl
        | inr other ↦
            let rest : lookup (codes "state") ((key, value) ∷ payload)
                ≡ lookup (codes "state") payload =
              rw other refl in
            rw (operating_entry-ne key value l other, advanced_entry-settings key value l)
              (elim (Bool-cases (add_gauge libraries subsystem key value l.monitor).1) [
                | inl added ↦ rw added (
                    operating_entries-panic z payload
                      (settings_entry libraries subsystem key value l) out (sym rest ∙ found)
                      (rw (entry-cache-ne libraries subsystem key (codes "state") value l other)
                        changed))
                | inr failed ↦ rw failed refl
              ])
      ]

  -- A number that has no gauge yet, and whose gauge the registry does not take.
  unfoldable pub is_refused : Bytes → Value F → Monitor F R → Bool
  unfolding is_numeric
  is_refused key value m =
      if missing (lookup key m.gauges) && is_numeric value
      then (if (libraries.register subsystem key m.registry).1 then false else true)
      else false

  -- A settings monitor that handles the entries of a payload in turn comes to one that is refused.
  unfoldable pub has_refused : Map Bytes (Value F) → Loop F R → Bool
  unfolding is_refused settings_entry
  has_refused [] l = false
  has_refused ((key, value) ∷ payload) l =
      let rest = has_refused payload (settings_entry libraries subsystem key value l) in
      if is_refused key value l.monitor then true else rest

  add_gauge-is_refused :
      (key : Bytes) (value : Value F) (m : Monitor F R)
      → (add_gauge libraries subsystem key value m).1
        ≡ (if is_refused key value m then false else true)
  unfolding add_gauge is_refused
  add_gauge-is_refused key value m = ground arith

  operating_entries-settings :
      (payload : Map Bytes (Value F)) (l : Loop F R)
      → Fresh (codes "state") payload
      → operating_entries libraries payload l ≡ (
          if has_refused payload l
          then panic
          else ok (settings_entries libraries subsystem payload l))
  unfolding operating_entries settings_entries has_refused
  operating_entries-settings [] l stateless = refl
  operating_entries-settings ((key, value) ∷ payload) l (other, stateless) =
      rw
        (
          operating_entry-ne key value l other,
          advanced_entry-settings key value l,
          add_gauge-is_refused key value l.monitor,
        )
        (elim (Bool-cases (is_refused key value l.monitor)) [
          | inl refused ↦ rw refused refl
          | inr taken ↦ rw taken (
              operating_entries-settings payload (settings_entry libraries subsystem key value l)
                stateless)
        ])

  -- A payload whose state is an integer outside the table of 32 texts, and differs from the cached
  -- one, panics the operating data monitor.
  pub operating_response-panic :
      (z : ℤ) (payload : Map Bytes (Value F)) (m : Monitor F R)
      → OutOfRange z
      → lookup (codes "state") payload ≡ some (scalar (int64 z))
      → libraries.equal (lookup (codes "state") m.cache) (scalar (int64 z)) ≡ false
      → operating_response libraries payload m ≡ panic
  unfolding operating_response
  operating_response-panic z payload m out found changed =
      rw
        (operating_entries-panic z payload (record { monitor = m; change_set = [] }) out found
          changed)
        refl

  -- A payload without a state panics the operating data monitor exactly when a settings monitor
  -- of the same subsystem, which handles its entries in turn, comes to a number without a gauge
  -- whose gauge cannot be registered; otherwise both monitors end alike, with the same change set.
  pub operating_response-settings :
      (payload : Map Bytes (Value F)) (m : Monitor F R)
      → Fresh (codes "state") payload
      → operating_response libraries payload m ≡ (
          if has_refused payload (record { monitor = m; change_set = [] })
          then panic
          else ok (settings_response libraries subsystem payload m))
  unfolding operating_response settings_response
  operating_response-settings payload m stateless =
      rw (operating_entries-settings payload (record { monitor = m; change_set = [] }) stateless)
        (elim (Bool-cases (has_refused payload (record { monitor = m; change_set = [] }))) [
          | inl refused ↦ rw refused refl
          | inr taken ↦ rw taken refl
        ])
