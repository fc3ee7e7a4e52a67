-- ===== src/Monitor/Published/Examples.antt =====
-- A float that is no number in a response of a settings monitor.
use boiler_mate.Prelude.{
  false, true, not, bytes_eq, ℕ, ◌≡◌, refl, Bytes, codes, [], ◌∷◌, some, if◌then◌else◌, ◌==◌,
  nat_eq,
}
use boiler_mate.Go.Map.{Map, lookup, insert}
use boiler_mate.Go.Decimal.{decimal}
use boiler_mate.Nbe.Types.{Runtime, Value, scalar, rounded, marshal_json}
use boiler_mate.Nbe.Fixtures.{whole}
use boiler_mate.Mqtt.{Connection, Client, under, payload_of}
use boiler_mate.Mqtt.Retained.{IsRetaining}
use boiler_mate.Mqtt.Fixtures.{store, lookup-store}
use boiler_mate.Monitor.{settings_response, Libraries}
use boiler_mate.Monitor.Fixtures.{start}
use boiler_mate.Monitor.Published.{messages, publish_many, publish_response, message_of}
use boiler_mate.Monitor.Published.Texts.{Json, IsDocumented, value_json, value_equal}
use boiler_mate.Monitor.Published.Failure.{publish_response-unpublished}

-- encoding/json without escapes, to which NaN is no number.
abbrev json : Json
json = record { quote = λ s. s; valid = λ n. not (n == codes "NaN") }

-- Floats as whole numbers, but that 255 stands for NaN.
abbrev nan : ℕ
nan = 255

abbrev runtime : Runtime ℕ
runtime = record whole { format_float = λ x. if x == nan then codes "NaN" else decimal x }

abbrev libraries : Libraries ℕ (Map Bytes Bytes)
libraries = record {
  equal = value_equal runtime;
  register = λ subsystem name registry. (insert name subsystem registry, true);
}

abbrev paho : Connection (Map Bytes Bytes) ℕ (Value ℕ)
paho = record {
  publish = λ topic qos retained payload b. if retained then store topic payload b else b;
  subscribe = λ topic qos callback b. (b, true);
  marshal = value_json runtime json;
}

abbrev documented : IsDocumented runtime libraries paho
documented = record { json = json; marshal_is = λ v. refl; equal_is = λ o v. refl }

abbrev retaining : IsRetaining paho
retaining = record {
  retained = λ topic b. lookup topic b;
  retained_publish = λ topic topic' qos payload b. lookup-store topic topic' payload b;
}

abbrev client : Client (Map Bytes Bytes) ℕ
client = record {
  prefix = codes "nbe";
  connection = (codes "nbe/boiler/temp", codes "65") ∷ [];
  subscriptions = [];
}

-- The temperature, which the monitor remembers as 65, is then no number.
abbrev payload : Map Bytes (Value ℕ)
payload = (codes "temp", scalar (rounded nan)) ∷ []

publish_response-unpublished_example :
    let after = publish_response libraries paho (codes "boiler") payload (start, client) in
    ((publish_many paho
        (codes "boiler")
        (messages (settings_response libraries (codes "boiler") payload start).1)
        client).1
      ≡ false)
    × (lookup (codes "temp") after.0.cache ≡ some (scalar (rounded nan)))
    × (lookup (under (under client.prefix (codes "boiler")) (codes "temp")) after.1.connection
        ≡ lookup (under (under client.prefix (codes "boiler")) (codes "temp")) client.connection)
    × ((publish_response libraries paho (codes "boiler") payload after).1 ≡ after.1)
unfolding lookup payload_of message_of marshal_json
publish_response-unpublished_example =
    publish_response-unpublished runtime libraries paho documented retaining (codes "boiler")
      payload start client (codes "temp") (scalar (rounded nan)) (tt, tt) refl refl refl
