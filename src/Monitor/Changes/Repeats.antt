-- ===== src/Monitor/Changes/Repeats.antt =====
-- monitor/monitor.go: a settings monitor at a response that repeats the one before.
use mathlib.Core.Path.{subst}
use boiler_mate.Prelude.{
  ◌≡◌, refl, ◌∙◌, sym, true, inl, inr, Bool-cases, [], ◌∷◌, Bytes, bytes_eq, All,
}
use boiler_mate.Go.Map.{Map, lookup, KeysNe, beq_refl}
use boiler_mate.Nbe.Types.{Value}
use boiler_mate.Monitor.{
  Libraries, IsEqual, Monitor, Loop, note_change, settings_entry, settings_entries,
  settings_response, signal,
}
use boiler_mate.Monitor.Changes.{entry-cache, entries-cache, add_gauge-cache}

module _ {F R : Type 0} (libraries : Libraries F R) (subsystem : Bytes) where
  -- Every entry is equal to the cache's.
  abbrev Cached : Map Bytes (Value F) → Map Bytes (Value F) → Type 0
  Cached cache payload = All (λ e. libraries.equal (lookup e.0 cache) e.1 ≡ true) payload

  entries-Cached :
      (payload : Map Bytes (Value F)) (l : Loop F R)
      → Cached l.monitor.cache payload
      → (settings_entries libraries subsystem payload l).change_set ≡ l.change_set
  unfolding settings_entries settings_entry note_change
  entries-Cached [] l cached = refl
  entries-Cached ((key, value) ∷ payload) l (here, there) =
      let after = settings_entry libraries subsystem key value l in
      let kept : after.monitor.cache ≡ l.monitor.cache =
        rw (add_gauge-cache libraries subsystem key value l.monitor, here)
          (add_gauge-cache libraries subsystem key value l.monitor) in
      entries-Cached payload after (subst (λ cache. Cached cache payload) (sym kept) there)
      ∙ rw (add_gauge-cache libraries subsystem key value l.monitor, here) refl

  entry-equal :
      IsEqual libraries
      → (key : Bytes) (value : Value F) (l : Loop F R)
      → libraries.equal
          (lookup key (settings_entry libraries subsystem key value l).monitor.cache)
          value
        ≡ true
  entry-equal laws key value l =
      rw (entry-cache libraries subsystem key key value l)
        (elim (Bool-cases (libraries.equal (lookup key l.monitor.cache) value)) [
          | inl same ↦ rw same same
          | inr changed ↦ rw (changed, beq_refl key) (laws.equal_self value)
        ])

  settings_entries-Cached :
      IsEqual libraries
      → (payload : Map Bytes (Value F)) (l : Loop F R) → KeysNe payload
      → Cached (settings_entries libraries subsystem payload l).monitor.cache payload
  unfolding settings_entries
  settings_entries-Cached laws [] l keys = tt
  settings_entries-Cached laws ((key, value) ∷ payload) l keys =
      let after = settings_entry libraries subsystem key value l in
      (
        rw (entries-cache libraries subsystem key payload after keys.0)
            (entry-equal laws key value l),
        settings_entries-Cached laws payload after keys.1,
      )

  pub signal-cache : (m : Monitor F R) → (signal m).cache ≡ m.cache
  unfolding signal
  signal-cache m = elim (Bool-cases m.first_publish) [
    | inl first ↦ rw first refl
    | inr later ↦ rw later refl
  ]

  -- A settings monitor publishes nothing when a response repeats the payload of the one before,
  -- whose keys are different; cmp.Equal finds a value equal to itself.
  pub settings_response-again :
      IsEqual libraries
      → (payload : Map Bytes (Value F)) (m : Monitor F R) → KeysNe payload
      → (settings_response libraries subsystem payload
          (settings_response libraries subsystem payload m).0).1
        ≡ []
  unfolding settings_response
  settings_response-again laws payload m keys =
      let start : Loop F R = record { monitor = m; change_set = [] } in
      let done = settings_entries libraries subsystem payload start in
      entries-Cached payload (record { monitor = signal done.monitor; change_set = [] })
        (subst (λ cache. Cached cache payload) (sym (signal-cache done.monitor))
          (settings_entries-Cached laws payload start keys))
