-- ===== src/Mqtt.antt =====
-- mqtt/client.go: publishing, and the table of subscriptions that is restored after a reconnect.
pub mod Subscriptions
pub mod Retained
pub mod Options
pub mod Fixtures
mod Examples
use boiler_mate.Prelude.{
  ℕ, Bool, true, false, List, [], ◌∷◌, ◌++◌, Bytes, codes, Option, none, some, if◌then◌else◌, ◌==◌,
  bytes_eq,
}
use boiler_mate.Go.Map.{Map, lookup, insert}

-- What the client uses of paho and of encoding/json: a connection in a state of `B`, callbacks of
-- a type `C`, and values of a type `V` that are marshalled.
pub record Connection (B C V : Type 0) : Type 0 where
  -- `Publish` of a topic, a quality of service, whether it is retained, and a payload
  pub publish : Bytes → ℕ → Bool → Bytes → B → B
  -- `Subscribe` and whether its token ends without an error
  pub subscribe : Bytes → ℕ → C → B → B × Bool
  -- `json.Marshal`; `none` is an error
  pub marshal : V → Option Bytes

-- `subscriptionInfo`.
pub record SubscriptionInfo (C : Type 0) : Type 0 where
  pub qos : ℕ
  pub callback : C

pub record Client (B C : Type 0) : Type 0 where
  pub prefix : Bytes
  pub connection : B
  pub subscriptions : Map Bytes (SubscriptionInfo C)

-- The cases of the type switch in `PublishRaw`.
pub data Message (V : Type 0) : Type 0 where
  string bytes : Bytes → Message V
  other : V → Message V

-- `fmt.Sprintf("%s/%s", …)`.
abbrev pub under : Bytes → Bytes → Bytes
under prefix topic = prefix ++ (b'/' ∷ topic)

module _ {B C V : Type 0} (paho : Connection B C V) where
  unfoldable pub payload_of : Message V → Option Bytes
  payload_of (string s) = some s
  payload_of (bytes s) = some s
  payload_of (other v) = paho.marshal v

  publish_payload : Bytes → Option Bytes → Client B C → Client B C × Bool
  publish_payload topic none client = (client, false)
  publish_payload topic (some payload) client =
      (record client { connection = paho.publish topic 0 true payload client.connection }, true)

  -- `PublishRaw`; the test is whether the error is nil.
  unfoldable pub publish_raw : Bytes → Message V → Client B C → Client B C × Bool
  unfolding payload_of publish_payload
  publish_raw topic val client = publish_payload topic (payload_of val) client

  -- `PublishJSON`.
  unfoldable pub publish_json : Bytes → V → Client B C → Client B C × Bool
  unfolding publish_payload
  publish_json topic val client = publish_payload topic (paho.marshal val) client

  -- `PublishMany` stops at the first error.
  unfoldable pub publish_many : Bytes → Map Bytes (Message V) → Client B C → Client B C × Bool
  unfolding publish_raw
  publish_many topic [] client = (client, true)
  publish_many topic ((key, val) ∷ values) client =
      let done = publish_raw (under (under client.prefix topic) key) val client in
      let rest = publish_many topic values done.0 in if done.1 then rest else done

  -- `Subscribe`.
  unfoldable pub subscribe : Bytes → ℕ → C → Client B C → Client B C × Bool
  subscribe topic qos callback client =
      let full_topic = under client.prefix topic in
      let done = paho.subscribe full_topic qos callback client.connection in
      (
        record client {
          connection = done.0;
          subscriptions =
              insert full_topic (record { qos = qos; callback = callback }) client.subscriptions;
        },
        done.1,
      )

  -- `client.connection.Publish` of the status online.
  unfoldable pub publish_online : Client B C → Client B C
  publish_online client = record client {
    connection =
        paho.publish (under client.prefix (codes "device/status")) 1 true (codes "online")
          client.connection;
  }

  -- The loop of the handler of a connection: an error is only logged.
  unfoldable pub resubscribe : Map Bytes (SubscriptionInfo C) → B → B
  resubscribe [] b = b
  resubscribe ((topic, info) ∷ subscriptions) b =
      resubscribe subscriptions (paho.subscribe topic info.qos info.callback b).0

  -- The handler of `SetOnConnectHandler`.
  unfoldable pub on_connect : Client B C → Client B C
  unfolding publish_online resubscribe
  on_connect client =
      let online = publish_online client in
      record online { connection = resubscribe client.subscriptions online.connection }

-- The port of `createClientOptions`.
abbrev pub broker_port : Bytes → Bytes → Bytes
broker_port scheme port =
    if port == [] then (if scheme == codes "mqtts" then codes "8883" else codes "1883") else port

-- The address for `AddBroker` in `createClientOptions`.
unfoldable pub broker_address : Bytes → Bytes → Bytes → Bytes
broker_address scheme host port =
    (if scheme == codes "mqtts" then codes "ssl://" else codes "tcp://")
    ++ (host ++ (b':' ∷ broker_port scheme port))
