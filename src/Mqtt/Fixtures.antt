-- ===== src/Mqtt/Fixtures.antt =====
-- The retained messages of a concrete broker, for the examples and tests.
use boiler_mate.Go.Decimal.{decimal}
use boiler_mate.Mqtt.Subscriptions.{IsSession}
use boiler_mate.Mqtt.{Connection, SubscriptionInfo}
use boiler_mate.Prelude.{
  refl, true, false, some, true, ℕ, Bool, ◌≡◌, [], ◌∷◌, Bytes, if◌then◌else◌, ◌==◌, bytes_eq,
}
use boiler_mate.Go.Map.{Map, lookup, insert, delete, lookup-insert, lookup-delete}
use boiler_mate.Mqtt.Retained.{IsRetaining, kept}

abbrev pub store : Bytes → Bytes → Map Bytes Bytes → Map Bytes Bytes
store topic [] messages = delete topic messages
store topic (c ∷ payload) messages = insert topic (c ∷ payload) messages

pub lookup-store :
    (topic topic' payload : Bytes) (messages : Map Bytes Bytes)
    → lookup topic' (store topic payload messages)
      ≡ (if topic == topic' then kept payload else lookup topic' messages)
lookup-store topic topic' [] messages = lookup-delete topic topic' messages
lookup-store topic topic' (c ∷ payload) messages = lookup-insert topic topic' (c ∷ payload) messages

-- A broker: the active subscriptions and the retained messages.
abbrev pub Broker : Type 0
Broker = Map Bytes (SubscriptionInfo ℕ) × Map Bytes Bytes

abbrev pub paho : Connection Broker ℕ ℕ
paho = record {
  publish = λ topic qos retained payload b. if retained then (b.0, store topic payload b.1) else b;
  subscribe = λ topic qos callback b.
      ((insert topic (record { qos = qos; callback = callback }) b.0, b.1), true);
  marshal = λ n. some (decimal n);
}

pub publish_active :
    (topic topic' : Bytes) (retained : Bool) (payload : Bytes) (b : Broker)
    → lookup topic' (paho.publish topic 0 retained payload b).0 ≡ lookup topic' b.0
publish_active topic topic' true payload b = refl
publish_active topic topic' false payload b = refl

abbrev pub session : IsSession paho
session = record {
  active = λ topic b. lookup topic b.0;
  active_subscribe = λ topic topic' qos callback b accepted.
      lookup-insert topic topic' (record { qos = qos; callback = callback }) b.0;
  active_publish =
      λ topic topic' qos retained payload b. publish_active topic topic' retained payload b;
}

abbrev pub retaining : IsRetaining paho
retaining = record {
  retained = λ topic b. lookup topic b.1;
  retained_publish = λ topic topic' qos payload b. lookup-store topic topic' payload b.1;
}
