-- ===== src/Mqtt/Subscriptions.antt =====
-- mqtt/client.go: every subscription is active, also after a reconnect.
use boiler_mate.Prelude.{
  ℕ, ◌≡◌, refl, ◌∙◌, sym, true, false, Bool, inl, inr, Bool-cases, Option-cases, [], ◌∷◌, Bytes,
  codes, Option, none, some, if◌then◌else◌, ◌==◌, bytes_eq, bytes_beq_iff,
}
use mathlib.Core.Path.{subst}
use boiler_mate.Go.Map.{insert-KeysNe, Map, lookup, lookup-insert, lookup-Fresh, KeysNe}
use boiler_mate.Mqtt.{
  Connection, SubscriptionInfo, Client, under, subscribe, publish_online, resubscribe, on_connect,
  publish_many, Message, payload_of, publish_raw, publish_payload,
}

-- What MQTT promises of a connection: after a subscribe call that succeeds the subscription is the
-- active one of its topic, every other one stays as it is, and publishing leaves them alone.
pub record IsSession {B C V : Type 0} (paho : Connection B C V) : Type 0 where
  pub active : Bytes → B → Option (SubscriptionInfo C)
  pub active_subscribe :
      (topic topic' : Bytes) (qos : ℕ) (callback : C) (b : B)
      → (paho.subscribe topic qos callback b).1 ≡ true
      → active topic' (paho.subscribe topic qos callback b).0 ≡ (
          if topic == topic'
          then some (record { qos = qos; callback = callback })
          else active topic' b)
  pub active_publish :
      (topic topic' : Bytes) (qos : ℕ) (retained : Bool) (payload : Bytes) (b : B)
      → active topic' (paho.publish topic qos retained payload b) ≡ active topic' b

-- The broker accepts every subscription.
abbrev pub Accepts : {B C V : Type 0} → Connection B C V → Type 0
Accepts {B = B} {C = C} paho =
    (topic : Bytes) (qos : ℕ) (callback : C) (b : B)
    → (paho.subscribe topic qos callback b).1 ≡ true

module _ {B C V : Type 0} (paho : Connection B C V) (session : IsSession paho) where
  -- A subscription of the table, or the one that was active.
  abbrev pub or_active : Bytes → B → Option (SubscriptionInfo C) → Option (SubscriptionInfo C)
  or_active topic b none = session.active topic b
  or_active topic b (some info) = some info

  or_active-same :
      (topic : Bytes) (b b' : B) (o : Option (SubscriptionInfo C))
      → session.active topic b ≡ session.active topic b'
      → or_active topic b o ≡ or_active topic b' o
  or_active-same topic b b' none same = same
  or_active-same topic b b' (some info) same = refl

  active-resubscribe :
      Accepts paho
      → (topic : Bytes) (subscriptions : Map Bytes (SubscriptionInfo C)) (b : B)
      → KeysNe subscriptions
      → session.active topic (resubscribe paho subscriptions b)
        ≡ or_active topic b (lookup topic subscriptions)
  unfolding resubscribe lookup
  active-resubscribe accepts topic [] b keys = refl
  active-resubscribe accepts topic ((key, info) ∷ subscriptions) b keys =
      let after = (paho.subscribe key info.qos info.callback b).0 in
      active-resubscribe accepts topic subscriptions after keys.1
      ∙ (elim (Bool-cases (key == topic)) [
        | inl here ↦
            rw
              (
                here,
                subst (λ k. lookup k subscriptions ≡ none) ((bytes_beq_iff key topic).0 here)
                    (lookup-Fresh key subscriptions keys.0),
              )
              (session.active_subscribe key topic info.qos info.callback b
                  (accepts key info.qos info.callback b)
                ∙ rw here refl)
        | inr other ↦ rw other (
            or_active-same topic after b (lookup topic subscriptions) (
              session.active_subscribe key topic info.qos info.callback b
                (accepts key info.qos info.callback b)
              ∙ rw other refl))
      ])

  -- After a reconnect, whatever the connection kept, the active subscriptions are those of the
  -- client's table and, at the other topics, what the connection kept; the broker accepts every
  -- subscription, the table has no topic twice, and the connection keeps MQTT's promises.
  pub on_connect-active :
      Accepts paho
      → (client : Client B C) (topic : Bytes) → KeysNe client.subscriptions
      → session.active topic (on_connect paho client).connection
        ≡ or_active topic client.connection (lookup topic client.subscriptions)
  unfolding on_connect publish_online
  on_connect-active accepts client topic keys =
      let online = publish_online paho client in
      active-resubscribe accepts topic client.subscriptions online.connection keys
      ∙ or_active-same topic online.connection client.connection (lookup topic client.subscriptions)
          (session.active_publish (under client.prefix (codes "device/status")) topic 1 true
            (codes "online") client.connection)

  -- Publishing many values leaves the subscriptions alone, whether it succeeds or not.
  pub publish_many-active :
      (topic topic' : Bytes) (values : Map Bytes (Message V)) (client : Client B C)
      → session.active topic' (publish_many paho topic values client).0.connection
        ≡ session.active topic' client.connection
  unfolding publish_many publish_raw publish_payload
  publish_many-active topic topic' [] client = refl
  publish_many-active topic topic' ((key, val) ∷ values) client =
      let full = under (under client.prefix topic) key in
      elim (Option-cases (payload_of paho val)) [
        | inl failed ↦ rw failed refl
        | inr (payload, done) ↦ rw done (
            publish_many-active topic topic' values
              (record client { connection = paho.publish full 0 true payload client.connection })
            ∙ session.active_publish full topic' 0 true payload client.connection)
      ]

  -- Every subscription of the client's table is active, and the table has no topic twice.
  pub record AllActive (client : Client B C) : Type 0 where
    pub topics_ne : KeysNe client.subscriptions
    pub active_at :
        (topic : Bytes) (info : SubscriptionInfo C)
        → lookup topic client.subscriptions ≡ some info
        → session.active topic client.connection ≡ some info

  -- A test that is answered for one map is answered for another one.
  or_else :
      {A : Type 0} (b : Bool) (r x y : Option A) {a : A}
      → (if b then r else x) ≡ some a
      → (x ≡ some a → y ≡ some a)
      → (if b then r else y) ≡ some a
  or_else true r x y h f = h
  or_else false r x y h f = f h

  -- When every subscription of the client's table is active, and the table has no topic twice,
  -- both still hold after a subscription that succeeds; the connection keeps MQTT's promises.
  pub subscribe-AllActive :
      (topic : Bytes) (qos : ℕ) (callback : C) (client : Client B C)
      → AllActive client
      → (subscribe paho topic qos callback client).1 ≡ true
      → AllActive (subscribe paho topic qos callback client).0
  unfolding subscribe
  subscribe-AllActive topic qos callback client active accepted = record {
    topics_ne = insert-KeysNe (under client.prefix topic) _ client.subscriptions active.topics_ne;
    active_at = λ topic' info found.
        session.active_subscribe (under client.prefix topic) topic' qos callback client.connection
          accepted
        ∙ or_else (under client.prefix topic == topic') _ _ _
            (sym (lookup-insert (under client.prefix topic) topic' _ client.subscriptions) ∙ found)
            (active.active_at topic' info);
  }

  -- A reconnect makes every subscription of the table active again, whatever the connection kept.
  pub on_connect-AllActive :
      Accepts paho
      → (client : Client B C) → KeysNe client.subscriptions
      → AllActive (on_connect paho client)
  on_connect-AllActive accepts client keys = record {
    topics_ne = unfold on_connect in unfold publish_online in keys;
    active_at = λ topic info found.
        on_connect-active accepts client topic keys
        ∙ (let found' : lookup topic client.subscriptions ≡ some info =
              unfold on_connect in unfold publish_online in found in
            rw found' refl);
  }
