-- ===== src/Monitor/Published/Shown.antt =====
-- monitor/monitor.go over mqtt/client.go: what the broker retains of a category's settings.
use mathlib.Core.Option
use boiler_mate.Prelude.{
  All, ◌≡◌, refl, ◌∙◌, ap, sym, true, inl, inr, Bool-cases, Option-cases, [], ◌∷◌, Bytes, Option,
  none, some, ◌==◌, bytes_eq, some-injective, arith,
}
use boiler_mate.Go.Map.{Map, lookup, Fresh, KeysNe}
use boiler_mate.Nbe.Types.{Runtime, Value}
use boiler_mate.Go.Map.Entries.{All-lookup}
use boiler_mate.Monitor.Published.Texts.{
  IsDocumented, text_of, HasText, text_of-equal, nothing_equals,
}
use boiler_mate.Mqtt.{Connection, Client, under, publish_many}
use boiler_mate.Mqtt.Retained.{
  publish_many-prefix, IsRetaining, kept, kept_value, payload_at, Marshals, publish_many-retained,
}
use boiler_mate.Monitor.{Libraries, Monitor, settings_response}
use boiler_mate.Monitor.Changes.Cache.{
  remembered, settings_response-cache, settings_response-KeysNe,
}
use boiler_mate.Monitor.Changes.{changed, settings_response-changes}
use boiler_mate.Monitor.Published.{message_of, messages, publish_response}

module _ {F : Type 0} where
  pub lookup-messages :
      (k : Bytes) (changes : Map Bytes (Value F))
      → lookup k (messages changes) ≡ Option.map message_of (lookup k changes)
  unfolding messages lookup
  lookup-messages k [] = refl
  lookup-messages k ((j, v) ∷ changes) = elim (Bool-cases (j == k)) [
    | inl here ↦ rw here refl
    | inr other ↦ rw other (lookup-messages k changes)
  ]

  messages-Fresh :
      (k : Bytes) (changes : Map Bytes (Value F)) → Fresh k changes → Fresh k (messages changes)
  unfolding messages
  messages-Fresh k [] h = tt
  messages-Fresh k ((j, v) ∷ changes) h = (h.0, messages-Fresh k changes h.1)

  pub messages-KeysNe : (changes : Map Bytes (Value F)) → KeysNe changes → KeysNe (messages changes)
  unfolding messages
  messages-KeysNe [] h = tt
  messages-KeysNe ((j, v) ∷ changes) h = (messages-Fresh j changes h.0, messages-KeysNe changes h.1)

module _ {F R B C : Type 0} (runtime : Runtime F) (libraries : Libraries F R)
    (paho : Connection B C (Value F)) (documented : IsDocumented runtime libraries paho)
    (broker : IsRetaining paho) (category : Bytes) where
  -- The values of a payload, or of a change set, all have a text.
  abbrev pub HaveTexts : Map Bytes (Value F) → Type 0
  HaveTexts values = All (HasText runtime libraries paho documented) values

  -- What the broker retains at the topic of a key of the category.
  abbrev pub retained_at : Bytes → Client B C → Option Bytes
  retained_at k client = broker.retained (under (under client.prefix category) k) client.connection

  -- The topic of a key retains a value's text, or nothing when that is empty.
  abbrev pub IsShownAt : Bytes → Value F → Client B C → Type 0
  IsShownAt k v client =
      (t : Bytes) × (text_of runtime libraries paho documented v ≡ some t)
      × (retained_at k client ≡ kept t)

  -- The broker retains the text of every value that the monitor remembers.
  abbrev pub Shows : Monitor F R → Client B C → Type 0
  Shows m client = (k : Bytes) (v : Value F) → lookup k m.cache ≡ some v → IsShownAt k v client

  pub messages-Marshals :
      (changes : Map Bytes (Value F)) → HaveTexts changes → Marshals paho broker (messages changes)
  unfolding messages
  messages-Marshals [] h = tt
  messages-Marshals ((j, v) ∷ changes) h = (h.0, messages-Marshals changes h.1)

  pub Marshals-HaveTexts :
      (changes : Map Bytes (Value F)) → Marshals paho broker (messages changes) → HaveTexts changes
  unfolding messages
  Marshals-HaveTexts [] h = tt
  Marshals-HaveTexts ((j, v) ∷ changes) h = (h.0, Marshals-HaveTexts changes h.1)

  module _ (payload : Map Bytes (Value F)) (keys : KeysNe payload) (m : Monitor F R)
      (client : Client B C)
      (texts : HaveTexts (settings_response libraries category payload m).1) where
    abbrev pub after : Monitor F R × Client B C
    after = publish_response libraries paho category payload (m, client)

    pub publish_response-prefix : after.1.prefix ≡ client.prefix
    unfolding publish_response
    publish_response-prefix =
        let changes = (settings_response libraries category payload m).1 in
        publish_many-prefix paho broker category (messages changes) client
          (messages-Marshals changes texts)

    -- A topic of the category retains the text of what changed at its key.
    pub after-retained :
        (k : Bytes)
        → retained_at k after.1
          ≡ kept_value paho broker (retained_at k client) (
              payload_at paho broker
                (Option.map message_of (changed libraries category m k (lookup k payload))))
    unfolding publish_response
    after-retained k =
        let changes = (settings_response libraries category payload m).1 in
        let marshals = messages-Marshals changes texts in
        let published =
          publish_many-retained paho broker category k (messages changes) client
            (messages-KeysNe changes (settings_response-KeysNe libraries category payload m))
            marshals in
        let client' = (publish_many paho category (messages changes) client).0 in
        ap (λ prefix. broker.retained (under (under prefix category) k) client'.connection)
          publish_response-prefix
        ∙ published.1
        ∙ ap (λ o. kept_value paho broker (retained_at k client) (payload_at paho broker o))
            (lookup-messages k changes
              ∙ ap (Option.map message_of)
                  (settings_response-changes libraries category payload m k keys))

    -- What was shown of an entry that is not published, since it equals the remembered one.
    shown_already :
        Shows m client
        → (k : Bytes) (v : Value F) → libraries.equal (lookup k m.cache) v ≡ true
        → IsShownAt k v client
    shown_already shows k v same = elim (Option-cases (lookup k m.cache)) [
      | inl missing ↦
          (let none_equal : libraries.equal none v ≡ true = rw (← missing) same in
            absurd (cc (none_equal, nothing_equals runtime libraries paho documented v)))
      | inr (w, found) ↦
          (let some_equal : libraries.equal (some w) v ≡ true = rw (← found) same in
            let (t, text_is, there) = shows k w found in
            (
              t,
              sym (text_of-equal runtime libraries paho documented w v some_equal) ∙ text_is,
              there,
            ))
    ]

    -- Behind a response every entry of it is shown: its topic retains its text.
    pub publish_response-shown :
        Shows m client
        → (k : Bytes) (v : Value F) → lookup k payload ≡ some v
        → IsShownAt k v after.1
    publish_response-shown shows k v there =
        elim (Bool-cases (libraries.equal (lookup k m.cache) v)) [
          | inl same ↦
              (let (t, text_is, old) = shown_already shows k v same in
                (t, text_is, after-retained k ∙ rw (there, same) old))
          | inr other ↦
              (let found : lookup k (settings_response libraries category payload m).1 ≡ some v =
                  settings_response-changes libraries category payload m k keys
                  ∙ rw (there, other) refl in
                let (t, text_is) =
                  All-lookup (HasText runtime libraries paho documented) k v
                    (settings_response libraries category payload m).1 texts found in
                (t, text_is, after-retained k ∙ rw (there, other, text_is) refl))
        ]

    remembered-shown :
        Shows m client
        → (k : Bytes) (v : Value F) (o : Option (Value F)) → lookup k payload ≡ o
        → remembered libraries category (lookup k m.cache) o ≡ some v
        → IsShownAt k v after.1
    remembered-shown shows k v none missing kept_old =
        let (t, text_is, old) = shows k v kept_old in
        (t, text_is, after-retained k ∙ rw missing old)
    remembered-shown shows k v (some w) there kept_new =
        let (t, text_is, shown) = publish_response-shown shows k w there in
        (
          t,
          (elim (Bool-cases (libraries.equal (lookup k m.cache) w)) [
            | inl same ↦
                (let old : lookup k m.cache ≡ some v = ground (arith, kept_new, same) in
                  let equal : libraries.equal (some v) w ≡ true = rw (← old) same in
                  text_of-equal runtime libraries paho documented v w equal ∙ text_is)
            | inr other ↦
                (let new : some w ≡ some v = ground (arith, kept_new, other) in
                  ap (text_of runtime libraries paho documented) (sym (some-injective w v new))
                  ∙ text_is)
          ]),
          shown,
        )

    -- When the broker shows what a settings monitor remembers, it still does after a response whose
    -- changes all have a text.
    pub publish_response-Shows : Shows m client → Shows after.0 after.1
    unfolding publish_response
    publish_response-Shows shows k v found =
        remembered-shown shows k v (lookup k payload) refl
          (sym (settings_response-cache libraries category k payload m keys) ∙ found)
