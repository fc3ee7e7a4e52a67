-- ===== src/Monitor/Changes/Cache.antt =====
-- monitor/monitor.go: what a settings monitor remembers of a response, and its change set's keys.
use mathlib.Core.Path.{subst}
use boiler_mate.Go.Map.Entries.{All-insert}
use boiler_mate.Prelude.{
  All, ◌≡◌, refl, ◌∙◌, ap, inl, inr, Bool-cases, [], ◌∷◌, Bytes, Option, none, some, if◌then◌else◌,
  ◌==◌, bytes_eq, bytes_beq_iff,
}
use boiler_mate.Go.Map.{Map, lookup, KeysNe, insert-KeysNe, beq_refl}
use boiler_mate.Nbe.Types.{Value}
use boiler_mate.Monitor.{
  Libraries, Monitor, Loop, note_change, settings_entry, settings_entries, settings_response,
}
use boiler_mate.Monitor.Changes.{entry-cache, entry-cache-ne, entries-cache, add_gauge-cache}
use boiler_mate.Monitor.Changes.Repeats.{signal-cache}

module _ {F R : Type 0} (libraries : Libraries F R) (subsystem : Bytes) where
  -- What the cache holds at a key, over what it held, behind the payload's entry at that key.
  abbrev pub remembered : Option (Value F) → Option (Value F) → Option (Value F)
  remembered old none = old
  remembered old (some v) = if libraries.equal old v then old else some v

  entry-cache_here :
      (key : Bytes) (value : Value F) (l : Loop F R)
      → lookup key (settings_entry libraries subsystem key value l).monitor.cache
        ≡ remembered (lookup key l.monitor.cache) (some value)
  entry-cache_here key value l =
      entry-cache libraries subsystem key key value l
      ∙ (elim (Bool-cases (libraries.equal (lookup key l.monitor.cache) value)) [
        | inl same ↦ rw same refl
        | inr changed ↦ rw (changed, beq_refl key) refl
      ])

  entries-remembered :
      (k : Bytes) (payload : Map Bytes (Value F)) (l : Loop F R)
      → KeysNe payload
      → lookup k (settings_entries libraries subsystem payload l).monitor.cache
        ≡ remembered (lookup k l.monitor.cache) (lookup k payload)
  unfolding settings_entries lookup
  entries-remembered k [] l keys = refl
  entries-remembered k ((key, value) ∷ payload) l keys =
      let after = settings_entry libraries subsystem key value l in
      elim (Bool-cases (key == k)) [
        | inl here ↦
            subst
              (λ j.
                lookup j (settings_entries libraries subsystem payload after).monitor.cache
                ≡ remembered (lookup j l.monitor.cache)
                    (if key == j then some value else lookup j payload))
              ((bytes_beq_iff key k).0 here)
              (entries-cache libraries subsystem key payload after keys.0
                ∙ entry-cache_here key value l
                ∙ rw (beq_refl key) refl)
        | inr other ↦
            entries-remembered k payload after keys.1
            ∙ rw (entry-cache-ne libraries subsystem key k value l other, other) refl
      ]

  -- The cache behind a response holds the payload's entry at its key, where that differs from what
  -- it held.
  pub settings_response-cache :
      (k : Bytes) (payload : Map Bytes (Value F)) (m : Monitor F R)
      → KeysNe payload
      → lookup k (settings_response libraries subsystem payload m).0.cache
        ≡ remembered (lookup k m.cache) (lookup k payload)
  unfolding settings_response
  settings_response-cache k payload m keys =
      let start : Loop F R = record { monitor = m; change_set = [] } in
      ap (lookup k) (
        signal-cache libraries subsystem
          (settings_entries libraries subsystem payload start).monitor)
      ∙ entries-remembered k payload start keys

  entry-KeysNe :
      (key : Bytes) (value : Value F) (l : Loop F R)
      → KeysNe l.change_set
      → KeysNe (settings_entry libraries subsystem key value l).change_set
  unfolding settings_entry note_change
  entry-KeysNe key value l keys =
      rw (add_gauge-cache libraries subsystem key value l.monitor)
        (elim (Bool-cases (libraries.equal (lookup key l.monitor.cache) value)) [
          | inl same ↦ rw same keys
          | inr changed ↦ rw changed (insert-KeysNe key value l.change_set keys)
        ])

  entries-KeysNe :
      (payload : Map Bytes (Value F)) (l : Loop F R)
      → KeysNe l.change_set
      → KeysNe (settings_entries libraries subsystem payload l).change_set
  unfolding settings_entries
  entries-KeysNe [] l keys = keys
  entries-KeysNe ((key, value) ∷ payload) l keys =
      entries-KeysNe payload (settings_entry libraries subsystem key value l)
        (entry-KeysNe key value l keys)

  -- A change set has no key twice.
  pub settings_response-KeysNe :
      (payload : Map Bytes (Value F)) (m : Monitor F R)
      → KeysNe (settings_response libraries subsystem payload m).1
  unfolding settings_response
  settings_response-KeysNe payload m =
      entries-KeysNe payload (record { monitor = m; change_set = [] }) tt

  module _ (P : Bytes × Value F → Type 0) where
    entry-All :
        (key : Bytes) (value : Value F) (l : Loop F R)
        → P (key, value)
        → All P l.change_set
        → All P (settings_entry libraries subsystem key value l).change_set
    unfolding settings_entry note_change
    entry-All key value l p h =
        rw (add_gauge-cache libraries subsystem key value l.monitor)
          (elim (Bool-cases (libraries.equal (lookup key l.monitor.cache) value)) [
            | inl same ↦ rw same h
            | inr changed ↦ rw changed (All-insert P key value l.change_set p h)
          ])

    entries-All :
        (payload : Map Bytes (Value F)) (l : Loop F R)
        → All P payload
        → All P l.change_set
        → All P (settings_entries libraries subsystem payload l).change_set
    unfolding settings_entries
    entries-All [] l p h = h
    entries-All ((key, value) ∷ payload) l p h =
        entries-All payload (settings_entry libraries subsystem key value l) p.1
          (entry-All key value l p.0 h)

    -- What holds of every entry of a payload holds of every entry of its change set.
    pub settings_response-All :
        (payload : Map Bytes (Value F)) (m : Monitor F R)
        → All P payload
        → All P (settings_response libraries subsystem payload m).1
    unfolding settings_response
    settings_response-All payload m p =
        entries-All payload (record { monitor = m; change_set = [] }) p tt
