-- ===== src/Monitor/Changes.antt =====
-- monitor/monitor.go: what a settings monitor publishes.
pub mod Repeats
pub mod Cache
use mathlib.Core.Path.{subst}
use boiler_mate.Prelude.{
  ◌≡◌, refl, ◌∙◌, ap, sym, true, false, inl, inr, Bool-cases, arith, [], ◌∷◌, Bytes, Bool, Option,
  none, some, if◌then◌else◌, ◌==◌, bytes_eq, bytes_beq_iff, All,
}
use boiler_mate.Go.Map.{Map, lookup, lookup-insert, lookup-Fresh, Fresh, KeysNe, beq_refl}
use boiler_mate.Nbe.Types.{Value}
use boiler_mate.Monitor.{
  Libraries, IsEqual, Monitor, Loop, add_gauge, note_change, settings_entry, settings_entries,
  settings_response, signal,
}

module _ {F R : Type 0} (libraries : Libraries F R) (subsystem : Bytes) where
  -- What a map holds after a value is written over it unless it is as before.
  abbrev written : Bool → Bytes → Value F → Bytes → Option (Value F) → Option (Value F)
  written true key value k old = old
  written false key value k old = if key == k then some value else old

  add_gauge-cache :
      (key : Bytes) (value : Value F) (m : Monitor F R)
      → (add_gauge libraries subsystem key value m).0.cache ≡ m.cache
  unfolding add_gauge
  add_gauge-cache key value m = ground arith

  pub entry-cache :
      (key k : Bytes) (value : Value F) (l : Loop F R)
      → lookup k (settings_entry libraries subsystem key value l).monitor.cache
        ≡ written
            (libraries.equal (lookup key l.monitor.cache) value)
            key
            value
            k
            (lookup k l.monitor.cache)
  unfolding settings_entry note_change
  entry-cache key k value l =
      rw (add_gauge-cache key value l.monitor)
        (elim (Bool-cases (libraries.equal (lookup key l.monitor.cache) value)) [
          | inl same ↦ rw same (ap (lookup k) (add_gauge-cache key value l.monitor))
          | inr changed ↦ rw changed (lookup-insert key k value l.monitor.cache)
        ])

  entry-change_set :
      (key k : Bytes) (value : Value F) (l : Loop F R)
      → lookup k (settings_entry libraries subsystem key value l).change_set
        ≡ written
            (libraries.equal (lookup key l.monitor.cache) value)
            key
            value
            k
            (lookup k l.change_set)
  unfolding settings_entry note_change
  entry-change_set key k value l =
      rw (add_gauge-cache key value l.monitor)
        (elim (Bool-cases (libraries.equal (lookup key l.monitor.cache) value)) [
          | inl same ↦ rw same refl
          | inr changed ↦ rw changed (lookup-insert key k value l.change_set)
        ])

  written-other :
      (b : Bool) (key : Bytes) (value : Value F) (k : Bytes) (old : Option (Value F))
      → (key == k) ≡ false
      → written b key value k old ≡ old
  written-other true key value k old other = refl
  written-other false key value k old other = rw other refl

  pub entry-cache-ne :
      (key k : Bytes) (value : Value F) (l : Loop F R)
      → (key == k) ≡ false
      → lookup k (settings_entry libraries subsystem key value l).monitor.cache
        ≡ lookup k l.monitor.cache
  entry-cache-ne key k value l other =
      entry-cache key k value l
      ∙ written-other (libraries.equal (lookup key l.monitor.cache) value) key value k
          (lookup k l.monitor.cache) other

  pub entries-cache :
      (k : Bytes) (payload : Map Bytes (Value F)) (l : Loop F R)
      → Fresh k payload
      → lookup k (settings_entries libraries subsystem payload l).monitor.cache
        ≡ lookup k l.monitor.cache
  unfolding settings_entries
  entries-cache k [] l fresh = refl
  entries-cache k ((key, value) ∷ payload) l fresh =
      entries-cache k payload (settings_entry libraries subsystem key value l) fresh.1
      ∙ entry-cache key k value l
      ∙ written-other (libraries.equal (lookup key l.monitor.cache) value) key value k
          (lookup k l.monitor.cache) fresh.0

  -- What a change set holds at a key of the payload, or at another one.
  abbrev published : Loop F R → Bytes → Option (Value F) → Option (Value F)
  published l k none = lookup k l.change_set
  published l k (some v) =
      if libraries.equal (lookup k l.monitor.cache) v then lookup k l.change_set else some v

  published-other :
      (key k : Bytes) (value : Value F) (l : Loop F R) (o : Option (Value F))
      → (key == k) ≡ false
      → published (settings_entry libraries subsystem key value l) k o ≡ published l k o
  published-other key k value l none other =
      entry-change_set key k value l
      ∙ written-other (libraries.equal (lookup key l.monitor.cache) value) key value k
          (lookup k l.change_set) other
  published-other key k value l (some v) other =
      rw
        (
          entry-cache key k value l,
          entry-change_set key k value l,
          written-other (libraries.equal (lookup key l.monitor.cache) value) key value k
              (lookup k l.monitor.cache) other,
          written-other (libraries.equal (lookup key l.monitor.cache) value) key value k
              (lookup k l.change_set) other,
        )
        refl

  published-here :
      (key : Bytes) (value : Value F) (l : Loop F R)
      → lookup key (settings_entry libraries subsystem key value l).change_set
        ≡ published l key (some value)
  published-here key value l =
      entry-change_set key key value l
      ∙ (elim (Bool-cases (libraries.equal (lookup key l.monitor.cache) value)) [
        | inl same ↦ rw same refl
        | inr changed ↦ rw (changed, beq_refl key) refl
      ])

  entries-lookup :
      (k : Bytes) (payload : Map Bytes (Value F)) (l : Loop F R)
      → KeysNe payload
      → lookup k (settings_entries libraries subsystem payload l).change_set
        ≡ published l k (lookup k payload)
  unfolding settings_entries lookup
  entries-lookup k [] l keys = refl
  entries-lookup k ((key, value) ∷ payload) l keys =
      let after = settings_entry libraries subsystem key value l in
      entries-lookup k payload after keys.1 ∙ (elim (Bool-cases (key == k)) [
        | inl here ↦
            subst
              (λ j.
                (key == j) ≡ true
                → published after j (lookup j payload)
                  ≡ published l j (if key == j then some value else lookup j payload))
              ((bytes_beq_iff key k).0 here)
              (λ e. rw (e, lookup-Fresh key payload keys.0) (published-here key value l)) here
        | inr other ↦ rw other (published-other key k value l (lookup k payload) other)
      ])

  -- The entry of a payload at a key, unless the cache holds an equal one.
  abbrev pub changed : Monitor F R → Bytes → Option (Value F) → Option (Value F)
  changed m k none = none
  changed m k (some v) = if libraries.equal (lookup k m.cache) v then none else some v

  published-changed :
      (m : Monitor F R) (k : Bytes) (o : Option (Value F))
      → published (record { monitor = m; change_set = [] }) k o ≡ changed m k o
  unfolding lookup
  published-changed m k none = refl
  published-changed m k (some v) = refl

  -- Of a payload with different keys a settings monitor publishes exactly the entries that differ
  -- from its cache, each with its new value.
  pub settings_response-changes :
      (payload : Map Bytes (Value F)) (m : Monitor F R) (k : Bytes)
      → KeysNe payload
      → lookup k (settings_response libraries subsystem payload m).1
        ≡ changed m k (lookup k payload)
  unfolding settings_response
  settings_response-changes payload m k keys =
      entries-lookup k payload (record { monitor = m; change_set = [] }) keys
      ∙ published-changed m k (lookup k payload)
