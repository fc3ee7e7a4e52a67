-- ===== src/Mqtt/Retained.antt =====
-- mqtt/client.go: what is retained after PublishMany.
use boiler_mate.Prelude.{
  arith, false, ℕ, ◌≡◌, refl, ◌∙◌, sym, true, false, inl, inr, Bool-cases, Option-cases, [], ◌∷◌,
  Bytes, Option, none, some, if◌then◌else◌, ◌==◌, bytes_eq, bytes_beq_iff, All, eqb_iff,
}
use mathlib.Core.Path.{subst}
use boiler_mate.Go.Map.{Map, lookup, lookup-Fresh, KeysNe}
use boiler_mate.Mqtt.{
  Connection, Client, Message, under, payload_of, publish_payload, publish_raw, publish_many,
  publish_json,
}

-- What a topic retains of a payload: an empty one clears it.
abbrev pub kept : Bytes → Option Bytes
kept [] = none
kept (c ∷ payload) = some (c ∷ payload)

-- What a topic retains after a message that may not be marshalled.
abbrev pub kept_at : Option Bytes → Option Bytes → Option Bytes
kept_at none old = old
kept_at (some payload) old = kept payload

-- What MQTT promises of a message that is published to be retained.
pub record IsRetaining {B C V : Type 0} (paho : Connection B C V) : Type 0 where
  pub retained : Bytes → B → Option Bytes
  pub retained_publish :
      (topic topic' : Bytes) (qos : ℕ) (payload : Bytes) (b : B)
      → retained topic' (paho.publish topic qos true payload b)
        ≡ (if topic == topic' then kept payload else retained topic' b)

under-same : (t key key' : Bytes) → (under t key == under t key') ≡ (key == key')
under-same [] key key' = refl
under-same (c ∷ t) key key' = rw ((eqb_iff c c).1 refl) (under-same t key key')

module _ {B C V : Type 0} (paho : Connection B C V) (broker : IsRetaining paho) where
  -- Every value is text or can be marshalled.
  abbrev pub Marshals : Map Bytes (Message V) → Type 0
  Marshals values = All (λ e. (payload : Bytes) × (payload_of paho e.1 ≡ some payload)) values

  abbrev pub kept_value : Option Bytes → Option (Option Bytes) → Option Bytes
  kept_value old none = old
  kept_value old (some none) = old
  kept_value old (some (some payload)) = kept payload

  abbrev pub payload_at : Option (Message V) → Option (Option Bytes)
  payload_at none = none
  payload_at (some val) = some (payload_of paho val)

  pub publish_json-retained :
      (topic topic' : Bytes) (val : V) (client : Client B C)
      → broker.retained topic' (publish_json paho topic val client).0.connection ≡ (
          if topic == topic'
          then kept_at (paho.marshal val) (broker.retained topic' client.connection)
          else broker.retained topic' client.connection)
  unfolding publish_json publish_payload
  publish_json-retained topic topic' val client = elim (Option-cases (paho.marshal val)) [
    | inl failed ↦ elim (Bool-cases (topic == topic')) [
      | inl same ↦ rw (failed, same) refl
      | inr other ↦ rw (failed, other) refl
    ]
    | inr (payload, done) ↦
        rw done (broker.retained_publish topic topic' 0 payload client.connection)
  ]

  publish_raw-some :
      (topic payload : Bytes) (val : Message V) (client : Client B C)
      → payload_of paho val ≡ some payload
      → publish_raw paho topic val client
        ≡ (record client { connection = paho.publish topic 0 true payload client.connection }, true)
  unfolding publish_raw publish_payload
  publish_raw-some topic payload val client e = rw e refl

  -- Publishing many values leaves the client's prefix.
  pub publish_many-prefix :
      (topic : Bytes) (values : Map Bytes (Message V)) (client : Client B C)
      → Marshals values
      → (publish_many paho topic values client).0.prefix ≡ client.prefix
  unfolding publish_many
  publish_many-prefix topic [] client marshals = refl
  publish_many-prefix topic ((k, val) ∷ values) client ((payload, e), marshals) =
      rw (publish_raw-some (under (under client.prefix topic) k) payload val client e) (
        publish_many-prefix topic values
          (record client {
            connection =
                paho.publish (under (under client.prefix topic) k) 0 true payload client.connection;
          })
          marshals)

  -- Where publishing many returns no error, every value had a payload.
  pub publish_many_ok-Marshals :
      (topic : Bytes) (values : Map Bytes (Message V)) (client : Client B C)
      → (publish_many paho topic values client).1 ≡ true
      → Marshals values
  unfolding publish_many publish_raw publish_payload
  publish_many_ok-Marshals topic [] client done = tt
  publish_many_ok-Marshals topic ((k, val) ∷ values) client done =
      elim (Option-cases (payload_of paho val)) [
        | inl failed ↦
            (let stopped : (publish_many paho topic ((k, val) ∷ values) client).1 ≡ false =
                rw failed refl in
              absurd (cc (stopped, done)))
        | inr (payload, e) ↦
            (let full = under (under client.prefix topic) k in
              let next : Client B C = record client {
                connection = paho.publish full 0 true payload client.connection;
              } in
              let rest_is : (publish_many paho topic ((k, val) ∷ values) client).1
                  ≡ (publish_many paho topic values next).1 =
                rw (publish_raw-some full payload val client e) refl in
              ((payload, e), publish_many_ok-Marshals topic values next (sym rest_is ∙ done)))
      ]

  -- A value that cannot be marshalled stops the publishing, and its topic retains what it did.
  pub publish_many-unmarshalled :
      (topic key : Bytes) (val : Message V) (values : Map Bytes (Message V)) (client : Client B C)
      → lookup key values ≡ some val
      → payload_of paho val ≡ none
      → ((publish_many paho topic values client).1 ≡ false)
        × (broker.retained
              (under (under client.prefix topic) key)
              (publish_many paho topic values client).0.connection
            ≡ broker.retained (under (under client.prefix topic) key) client.connection)
  unfolding publish_many publish_raw publish_payload lookup
  publish_many-unmarshalled topic key val [] client found failed = absurd (ground arith)
  publish_many-unmarshalled topic key val ((k, first) ∷ values) client found failed =
      let full = under client.prefix topic in
      elim (Option-cases (payload_of paho first)) [
        | inl stops ↦ rw stops (refl, refl)
        | inr (payload, e) ↦
            (let after : Client B C = record client {
              connection = paho.publish (under full k) 0 true payload client.connection;
            } in
              let other : (k == key) ≡ false = ground (arith, found, failed, e) in
              let later : lookup key values ≡ some val = ground (arith, found, other) in
              let rest = publish_many-unmarshalled topic key val values after later failed in
              rw (publish_raw-some (under full k) payload first client e) (
                rest.0,
                rest.1
                    ∙ broker.retained_publish (under full k) (under full key) 0 payload
                        client.connection
                    ∙ rw (under-same full k key, other) refl,
              ))
      ]

  -- When every value is text or can be marshalled, and no key occurs twice, publishing many
  -- succeeds, and each key's topic retains the payload of its value, or nothing if that is empty;
  -- the topics of other keys retain what they did; the broker retains messages as MQTT promises.
  pub publish_many-retained :
      (topic key : Bytes) (values : Map Bytes (Message V)) (client : Client B C)
      → KeysNe values
      → Marshals values
      → ((publish_many paho topic values client).1 ≡ true)
        × (broker.retained
              (under (under client.prefix topic) key)
              (publish_many paho topic values client).0.connection
            ≡ kept_value
                (broker.retained (under (under client.prefix topic) key) client.connection)
                (payload_at (lookup key values)))
  unfolding publish_many lookup
  publish_many-retained topic key [] client keys marshals = (refl, refl)
  publish_many-retained topic key ((k, val) ∷ values) client keys ((payload, e), marshals) =
      let full = under client.prefix topic in
      let after : Client B C = record client {
        connection = paho.publish (under full k) 0 true payload client.connection;
      } in
      let rest = publish_many-retained topic key values after keys.1 marshals in
      let stored : broker.retained (under full key) after.connection ≡ (
          if k == key then kept payload else broker.retained (under full key) client.connection) =
        broker.retained_publish (under full k) (under full key) 0 payload client.connection
        ∙ rw (under-same full k key) refl in
      rw (publish_raw-some (under full k) payload val client e) (
        rest.0,
        rest.1 ∙ (elim (Bool-cases (k == key)) [
          | inl here ↦
              rw
                (
                  here,
                  subst (λ j. lookup j values ≡ none) ((bytes_beq_iff k key).0 here)
                      (lookup-Fresh k values keys.0),
                  e,
                )
                (stored ∙ rw here refl)
          | inr other ↦ rw (other, stored, other) refl
        ]),
      )
