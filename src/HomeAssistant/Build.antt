-- ===== src/HomeAssistant/Build.antt =====
-- homeassistant/entity_types.go: what a discovery message holds under its topics' names.
use boiler_mate.Prelude.{
  not, ap, ◌≡◌, refl, ◌∙◌, true, false, Bool, inl, inr, Bool-cases, arith, List, [], ◌∷◌, Bytes,
  codes, Option, none, some, if◌then◌else◌, ◌==◌, bytes_eq, All, ◌&&◌,
}
use boiler_mate.Go.Map.{lookup, lookup-insert, lookup-delete}
use boiler_mate.Mqtt.{under}
use boiler_mate.HomeAssistant.Config.{
  EntityConfig, Field, text, Device, Message, is_set, is_number, is_switch, resolve, is_temperature,
  put, put_bound, start, add_optional, add_topics, add_number, add_button, add_switch, build,
}

-- No key of a list is this one.
abbrev LacksKey : Bytes → List Bytes → Type 0
LacksKey j keys = All (λ k. (k == j) ≡ false) keys

abbrev optional_keys : List Bytes
optional_keys =
    codes "entity_category"
    ∷ codes "device_class"
    ∷ codes "ic"
    ∷ codes "native_unit_of_measurement"
    ∷ codes "suggested_unit_of_measurement"
    ∷ codes "unit_of_measurement"
    ∷ codes "suggested_display_precision"
    ∷ []

abbrev number_keys : List Bytes
number_keys =
    codes "mode"
    ∷ codes "native_min_value"
    ∷ codes "min"
    ∷ codes "native_max_value"
    ∷ codes "max"
    ∷ codes "native_step"
    ∷ codes "step"
    ∷ []

module _ {V : Type 0} where
  lookup-put :
      (test : Bool) (k j : Bytes) (v : Field V) (m : Message V)
      → lookup j (put test k v m)
        ≡ (if k == j then (if test then some v else lookup j m) else lookup j m)
  unfolding put
  lookup-put true k j v m = lookup-insert k j v m
  lookup-put false k j v m = elim (Bool-cases (k == j)) [
    | inl same ↦ rw same refl
    | inr other ↦ rw other refl
  ]

  abbrev or_bound : Option V → Option (Field V) → Option (Field V)
  or_bound none old = old
  or_bound (some v) old = some (Field.bound v)

  lookup-put_bound :
      (o : Option V) (k j : Bytes) (m : Message V)
      → lookup j (put_bound o k m) ≡ (if k == j then or_bound o (lookup j m) else lookup j m)
  unfolding put_bound
  lookup-put_bound none k j m = elim (Bool-cases (k == j)) [
    | inl same ↦ rw same refl
    | inr other ↦ rw other refl
  ]
  lookup-put_bound (some v) k j m = lookup-insert k j (Field.bound v) m

  add_optional-ne :
      (e : EntityConfig V) (j : Bytes) (config : Message V)
      → LacksKey j optional_keys
      → lookup j (add_optional e config) ≡ lookup j config
  unfolding add_optional
  add_optional-ne e j config (h1, (h2, (h3, (h4, (h5, (h6, (h7, _))))))) =
      elim (Bool-cases (is_temperature e)) [
        | inl warm ↦ rw warm (simp (lookup-put, h1, h2, h3, h4, h5, h7))
        | inr cold ↦ rw cold (simp (lookup-put, h1, h2, h3, h6, h7))
      ]

  add_number-ne :
      (e : EntityConfig V) (j : Bytes) (config : Message V)
      → LacksKey j number_keys
      → lookup j (add_number e config) ≡ lookup j config
  unfolding add_number
  add_number-ne e j config (h1, (h2, (h3, (h4, (h5, (h6, (h7, _))))))) =
      elim (Bool-cases (is_number e.entity_type)) [
        | inr other ↦ rw other refl
        | inl here ↦ elim (Bool-cases (is_temperature e)) [
          | inl warm ↦ rw (here, warm) (simp (lookup-put, lookup-put_bound, h1, h2, h4, h6))
          | inr cold ↦ rw (here, cold) (simp (lookup-put, lookup-put_bound, h1, h3, h5, h7))
        ]
      ]

  add_button-ne :
      (e : EntityConfig V) (j : Bytes) (config : Message V)
      → (codes "payload_press" == j) ≡ false
      → lookup j (add_button e config) ≡ lookup j config
  unfolding add_button
  add_button-ne e j config other = simp (lookup-put, other)

  -- What a topic's key holds, over what it held before.
  abbrev topic_at : Bytes → Bytes → Bytes → Bytes → Option (Field V) → Option (Field V)
  topic_at k prefix topic j old =
      if k == j then (if is_set topic then some (text (resolve prefix topic)) else old) else old

  abbrev switch_at : EntityConfig V → Bytes → Bytes → Option (Field V) → Option (Field V)
  switch_at e prefix j old =
      if is_switch e.entity_type && is_set e.state_topic
      then (if codes "state_topic" == j
          then some (text (under prefix e.state_topic))
          else if codes "stat_t" == j
          then none
          else old)
      else old

  lookup-add_switch :
      (e : EntityConfig V) (prefix j : Bytes) (config : Message V)
      → lookup j (add_switch e prefix config) ≡ switch_at e prefix j (lookup j config)
  unfolding add_switch
  lookup-add_switch e prefix j config =
      elim (Bool-cases (is_switch e.entity_type && is_set e.state_topic)) [
        | inl here ↦ rw here (simp (lookup-insert, lookup-delete))
        | inr other ↦ rw other refl
      ]

  lookup-add_topics :
      (e : EntityConfig V) (prefix j : Bytes) (config : Message V)
      → lookup j (add_topics e prefix config)
        ≡ topic_at
            (codes "cmd_t")
            prefix
            e.command_topic
            j
            (topic_at (codes "stat_t") prefix e.state_topic j (lookup j config))
  unfolding add_topics
  lookup-add_topics e prefix j config = simp lookup-put

  -- What a message holds under a key that only the topics and the switch set.
  lookup-build :
      (e : EntityConfig V) (serial prefix : Bytes) (block : Device) (j : Bytes)
      → LacksKey j number_keys
      → LacksKey j optional_keys
      → (codes "payload_press" == j) ≡ false
      → lookup j (build e serial prefix block)
        ≡ switch_at e prefix j (
            topic_at (codes "cmd_t") prefix e.command_topic j (
              topic_at
                (codes "stat_t")
                prefix
                e.state_topic
                j
                (lookup j (start e serial prefix block))))
  unfolding build
  lookup-build e serial prefix block j numbers optionals press =
      lookup-add_switch e prefix j _
      ∙ ap (switch_at e prefix j) (
          add_button-ne e j _ press
          ∙ add_number-ne e j _ numbers
          ∙ lookup-add_topics e prefix j _
          ∙ ap
              (λ old.
                topic_at (codes "cmd_t") prefix e.command_topic j
                  (topic_at (codes "stat_t") prefix e.state_topic j old))
              (add_optional-ne e j (start e serial prefix block) optionals))

  -- The command topic of a message is the entity's, below the prefix or absolute, if it has one.
  pub lookup_cmd_t-build :
      (e : EntityConfig V) (serial prefix : Bytes) (block : Device)
      → lookup (codes "cmd_t") (build e serial prefix block)
        ≡ (if is_set e.command_topic then some (text (resolve prefix e.command_topic)) else none)
  unfolding lookup start
  lookup_cmd_t-build e serial prefix block =
      lookup-build e serial prefix block (codes "cmd_t") (ground arith) (ground arith) refl
      ∙ (elim (Bool-cases (is_switch e.entity_type && is_set e.state_topic)) [
        | inl here ↦ rw here refl
        | inr other ↦ rw other refl
      ])

  -- A message names its state topic once: a switch under `state_topic`, below the prefix, and any
  -- other entity under `stat_t`, below the prefix or absolute; without a topic it has neither.
  pub lookup_stat_t-build :
      (e : EntityConfig V) (serial prefix : Bytes) (block : Device)
      → (lookup (codes "state_topic") (build e serial prefix block) ≡ (
          if is_switch e.entity_type && is_set e.state_topic
          then some (text (under prefix e.state_topic))
          else none))
        × (lookup (codes "stat_t") (build e serial prefix block) ≡ (
            if not (is_switch e.entity_type) && is_set e.state_topic
            then some (text (resolve prefix e.state_topic))
            else none))
  unfolding lookup start
  lookup_stat_t-build e serial prefix block = (
    lookup-build e serial prefix block (codes "state_topic") (ground arith) (ground arith) refl,
    lookup-build e serial prefix block (codes "stat_t") (ground arith) (ground arith) refl
        ∙ ground arith,
  )

  -- Every message names the topic that the client's status is published to.
  pub lookup_avty_t-build :
      (e : EntityConfig V) (serial prefix : Bytes) (block : Device)
      → lookup (codes "avty_t") (build e serial prefix block)
        ≡ some (text (under prefix (codes "device/status")))
  unfolding lookup start
  lookup_avty_t-build e serial prefix block =
      lookup-build e serial prefix block (codes "avty_t") (ground arith) (ground arith) refl
      ∙ (elim (Bool-cases (is_switch e.entity_type && is_set e.state_topic)) [
        | inl here ↦ rw here refl
        | inr other ↦ rw other refl
      ])
