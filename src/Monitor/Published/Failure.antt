-- ===== src/Monitor/Published/Failure.antt =====
-- monitor/monitor.go over mqtt/client.go: a change that PublishMany cannot publish.
use mathlib.Core.Option
use boiler_mate.Prelude.{◌≡◌, refl, ◌∙◌, ap, Bytes, false, none, some, bytes_eq}
use boiler_mate.Go.Map.{Map, lookup, KeysNe}
use boiler_mate.Nbe.Types.{Runtime, Value}
use boiler_mate.Mqtt.{Connection, Client, under, publish_many}
use boiler_mate.Mqtt.Retained.{IsRetaining, publish_many-unmarshalled}
use boiler_mate.Monitor.{Libraries, Monitor, settings_response}
use boiler_mate.Monitor.Changes.{settings_response-changes}
use boiler_mate.Monitor.Changes.Cache.{settings_response-cache}
use boiler_mate.Monitor.Changes.Repeats.{settings_response-again}
use boiler_mate.Monitor.Published.{publish_response, message_of, messages}
use boiler_mate.Monitor.Published.Shown.{lookup-messages}
use boiler_mate.Monitor.Published.Texts.{IsDocumented, text_of, documented-IsEqual}

module _ {F R B C : Type 0} (runtime : Runtime F) (libraries : Libraries F R)
    (paho : Connection B C (Value F)) (documented : IsDocumented runtime libraries paho)
    (broker : IsRetaining paho) (category : Bytes) where
  -- Where a changed value has no text, as a float that is no finite number, PublishMany returns an
  -- error; behind the response the monitor remembers the value and its topic retains what it did,
  -- and a second response with the same payload leaves the MQTT client as the first did; the
  -- payload has different keys, a message stays until the next, and cmp.Equal and json.Marshal are
  -- as documented.
  pub publish_response-unpublished :
      (payload : Map Bytes (Value F)) (m : Monitor F R) (client : Client B C) (k : Bytes)
      (v : Value F)
      → KeysNe payload
      → lookup k payload ≡ some v
      → libraries.equal (lookup k m.cache) v ≡ false
      → text_of runtime libraries paho documented v ≡ none
      → let after = publish_response libraries paho category payload (m, client) in
        ((publish_many paho category
            (messages (settings_response libraries category payload m).1)
            client).1
          ≡ false)
        × (lookup k after.0.cache ≡ some v)
        × (broker.retained (under (under client.prefix category) k) after.1.connection
            ≡ broker.retained (under (under client.prefix category) k) client.connection)
        × ((publish_response libraries paho category payload after).1 ≡ after.1)
  unfolding publish_response messages publish_many
  publish_response-unpublished payload m client k v keys there changed untold =
      let changes = (settings_response libraries category payload m).1 in
      let differs : lookup k changes ≡ some v =
        settings_response-changes libraries category payload m k keys ∙ rw (there, changed) refl in
      let found : lookup k (messages changes) ≡ some (message_of v) =
        lookup-messages k changes ∙ ap (Option.map message_of) differs in
      let stopped =
        publish_many-unmarshalled paho broker category k (message_of v) (messages changes) client
          found untold in
      (
        stopped.0,
        settings_response-cache libraries category k payload m keys ∙ rw (there, changed) refl,
        stopped.1,
        ap
            (λ set.
              (publish_many paho category (messages set)
                (publish_many paho category (messages changes) client).0).0)
            (settings_response-again libraries category
              (documented-IsEqual runtime libraries paho documented) payload m keys),
      )
