-- ===== src/Monitor/Published/Order.antt =====
-- monitor/monitor.go over mqtt/client.go: the order in which Go walks a payload.
use mathlib.Core.Quot
use boiler_mate.Prelude.{◌≡◌, ◌∙◌, ap, sym, Bytes, bytes_eq}
use boiler_mate.Go.Map.{Map, lookup, KeysNe}
use boiler_mate.Go.Map.Unordered.{SameEntries, unordered}
use boiler_mate.Nbe.Types.{Runtime, Value}
use boiler_mate.Mqtt.{Connection, Client}
use boiler_mate.Mqtt.Retained.{IsRetaining, kept_value, payload_at}
use boiler_mate.Monitor.{Libraries, Monitor, settings_response}
use boiler_mate.Monitor.Changes.{changed, settings_response-changes}
use boiler_mate.Monitor.Changes.Cache.{settings_response-All, remembered, settings_response-cache}
use boiler_mate.Monitor.Published.{publish_response, message_of}
use mathlib.Core.Option
use boiler_mate.Monitor.Published.Texts.{IsDocumented, HasText}
use boiler_mate.Monitor.Published.Shown.{retained_at, HaveTexts, after-retained}

module _ {F R B C : Type 0} (runtime : Runtime F) (libraries : Libraries F R)
    (paho : Connection B C (Value F)) (documented : IsDocumented runtime libraries paho)
    (broker : IsRetaining paho) (category : Bytes) where
  -- In whichever order Go walks the payload of a response, the change set and the cache of a
  -- settings monitor are the same as maps, and so is what the broker retains at the topics of the
  -- category, where every value of the payload has a text, so that PublishMany does not stop at
  -- one: two payloads with different keys and the same entry at every key have the same effect; a
  -- message stays until the next, and cmp.Equal and json.Marshal are as documented.
  pub publish_response-order :
      (payload payload' : Map Bytes (Value F)) (m : Monitor F R) (client : Client B C)
      → KeysNe payload
      → KeysNe payload'
      → SameEntries payload payload'
      → HaveTexts runtime libraries paho documented broker category payload
      → HaveTexts runtime libraries paho documented broker category payload'
      → let done = publish_response libraries paho category payload (m, client) in
        let done' = publish_response libraries paho category payload' (m, client) in
        (unordered (settings_response libraries category payload m).1
          ≡ unordered (settings_response libraries category payload' m).1)
        × (unordered done.0.cache ≡ unordered done'.0.cache)
        × ((k : Bytes)
            → retained_at runtime libraries paho documented broker category k done.1
              ≡ retained_at runtime libraries paho documented broker category k done'.1)
  unfolding publish_response
  publish_response-order payload payload' m client keys keys' same texts texts' = (
    Quot.sound (λ k.
        settings_response-changes libraries category payload m k keys
        ∙ ap (changed libraries category m k) (same k)
        ∙ sym (settings_response-changes libraries category payload' m k keys')),
    Quot.sound (λ k.
        settings_response-cache libraries category k payload m keys
        ∙ ap (remembered libraries category (lookup k m.cache)) (same k)
        ∙ sym (settings_response-cache libraries category k payload' m keys')),
    λ k.
        after-retained runtime libraries paho documented broker category payload keys m client
          (settings_response-All libraries category (HasText runtime libraries paho documented)
            payload m texts)
          k
        ∙ ap
            (λ o.
              kept_value paho broker
                (retained_at runtime libraries paho documented broker category k client)
                (payload_at paho broker (Option.map message_of (changed libraries category m k o))))
            (same k)
        ∙ sym (
            after-retained runtime libraries paho documented broker category payload' keys' m client
              (settings_response-All libraries category (HasText runtime libraries paho documented)
                payload' m texts')
              k),
  )
