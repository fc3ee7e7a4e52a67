-- ===== src/Mqtt/Examples.antt =====
-- mqtt/client.go: tests, and the theorems at a broker that is two tables.
use boiler_mate.Prelude.{ℕ, ◌≡◌, refl, true, [], ◌∷◌, codes, bytes_eq}
use boiler_mate.Go.Decimal.{decimal}
use boiler_mate.Go.Map.{lookup}
use boiler_mate.Mqtt.{
  Client, string, other, under, subscribe, on_connect, publish_many, broker_address, payload_of,
}
use boiler_mate.Mqtt.Fixtures.{Broker, paho, session, retaining}
use boiler_mate.Mqtt.Subscriptions.{
  AllActive, or_active, on_connect-active, subscribe-AllActive, on_connect-AllActive,
}
use boiler_mate.Mqtt.Retained.{kept_value, payload_at, publish_many-retained}

-- A client whose connection has lost its one subscription.
abbrev client : Client Broker ℕ
client = record {
  prefix = codes "nbe/12345";
  connection = ([], []);
  subscriptions = (codes "nbe/12345/set/+/+", record { qos = 1; callback = 5 }) ∷ [];
}

own_port : broker_address (codes "mqtt") (codes "localhost") [] ≡ codes "tcp://localhost:1883"
unfolding broker_address
own_port = refl

on_connect-active_example :
    lookup (codes "nbe/12345/set/+/+") (on_connect paho client).connection.0
    ≡ or_active paho session
        (codes "nbe/12345/set/+/+")
        client.connection
        (lookup (codes "nbe/12345/set/+/+") client.subscriptions)
unfolding lookup
on_connect-active_example =
    on_connect-active paho session (λ topic qos callback b. refl) client (codes "nbe/12345/set/+/+")
      (tt, tt)

client-AllActive : AllActive paho session (on_connect paho client)
client-AllActive = on_connect-AllActive paho session (λ topic qos callback b. refl) client (tt, tt)

subscribe-AllActive_example :
    AllActive paho session (subscribe paho (codes "get") 0 7 (on_connect paho client)).0
unfolding subscribe
subscribe-AllActive_example =
    subscribe-AllActive paho session (codes "get") 0 7 (on_connect paho client) client-AllActive
      refl

publish_many-retained_example :
    ((publish_many paho
        (codes "device")
        ((codes "status", string (codes "online")) ∷ (codes "uptime", other 12) ∷ [])
        client).1
      ≡ true)
    × (lookup
          (under (under client.prefix (codes "device")) (codes "uptime"))
          (publish_many paho
            (codes "device")
            ((codes "status", string (codes "online")) ∷ (codes "uptime", other 12) ∷ [])
            client).0.connection.1
        ≡ kept_value paho retaining
            (lookup
              (under (under client.prefix (codes "device")) (codes "uptime"))
              client.connection.1)
            (payload_at paho retaining (
              lookup
                (codes "uptime")
                ((codes "status", string (codes "online")) ∷ (codes "uptime", other 12) ∷ []))))
unfolding payload_of decimal lookup
publish_many-retained_example =
    publish_many-retained paho retaining (codes "device") (codes "uptime")
      ((codes "status", string (codes "online")) ∷ (codes "uptime", other 12) ∷ []) client
      ((refl, tt), (tt, tt)) ((codes "online", refl), ((codes "12", refl), tt))
