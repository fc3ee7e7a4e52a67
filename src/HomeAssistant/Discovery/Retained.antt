-- ===== src/HomeAssistant/Discovery/Retained.antt =====
-- homeassistant/discovery.go: which messages the broker retains after the discovery.
use mathlib.Core.Path.{subst}
use boiler_mate.Prelude.{
  some-injective, All-get_elem?, ℕ, zero, suc, ◌≡◌, refl, ◌∙◌, ap, false, arith, List, [], ◌∷◌,
  Bytes, some, ◌==◌, bytes_eq, bytes_beq_iff, get_elem?,
}
use boiler_mate.Prelude.Int.{ℤ}
use boiler_mate.Go.Map.{beq_refl}
use boiler_mate.Mqtt.{Connection, Client}
use boiler_mate.Mqtt.Retained.{IsRetaining, publish_json-retained, kept_at}
use boiler_mate.HomeAssistant.Config.{EntityConfig, Device, Message, build, get_discovery_topic}
use boiler_mate.HomeAssistant.Entities.{all_entities}
use boiler_mate.HomeAssistant.Topics.{Apart, LacksTopic, all_entities-Apart}
use boiler_mate.HomeAssistant.Discovery.{publish_all, publish_discovery, create_device_block}

module _ {B C V : Type 0} (paho : Connection B C (Message V)) (broker : IsRetaining paho)
    (serial prefix : Bytes) (block : Device) where
  -- The discovery of other entities leaves a topic alone.
  publish_all-ne :
      (topic : Bytes) (entities : List (EntityConfig V)) (client : Client B C)
      → LacksTopic serial entities topic
      → broker.retained topic (publish_all paho entities serial prefix block client).connection
        ≡ broker.retained topic client.connection
  unfolding publish_all
  publish_all-ne topic [] client lacks = refl
  publish_all-ne topic (e ∷ entities) client (other, lacks) =
      publish_all-ne topic entities _ lacks
      ∙ publish_json-retained paho broker (get_discovery_topic e serial) topic
          (build e serial prefix block) client
      ∙ rw other refl

  publish_all-retained :
      (i : ℕ) (e : EntityConfig V) (entities : List (EntityConfig V)) (client : Client B C)
      → Apart serial entities
      → get_elem? entities i ≡ some e
      → broker.retained
          (get_discovery_topic e serial)
          (publish_all paho entities serial prefix block client).connection
        ≡ kept_at
            (paho.marshal (build e serial prefix block))
            (broker.retained (get_discovery_topic e serial) client.connection)
  unfolding publish_all
  publish_all-retained i e [] client apart found = ground arith
  publish_all-retained zero e (e' ∷ entities) client (lacks, apart) found =
      subst
        (λ x.
          broker.retained (get_discovery_topic x serial)
            (publish_all paho (e' ∷ entities) serial prefix block client).connection
          ≡ kept_at (paho.marshal (build x serial prefix block))
              (broker.retained (get_discovery_topic x serial) client.connection))
        (some-injective _ _ found)
        (publish_all-ne (get_discovery_topic e' serial) entities _ lacks
          ∙ publish_json-retained paho broker (get_discovery_topic e' serial)
              (get_discovery_topic e' serial) (build e' serial prefix block) client
          ∙ rw (beq_refl (get_discovery_topic e' serial)) refl)
  publish_all-retained (suc i) e (e' ∷ entities) client (lacks, apart) found =
      let other : (get_discovery_topic e' serial == get_discovery_topic e serial) ≡ false = ground (
        arith,
        bytes_beq_iff (get_discovery_topic e' serial) (get_discovery_topic e serial),
        bytes_beq_iff (get_discovery_topic e serial) (get_discovery_topic e' serial),
        All-get_elem? (λ x. (get_discovery_topic x serial == get_discovery_topic e' serial) ≡ false)
            i entities lacks found,
      ) in
      let same =
        publish_json-retained paho broker (get_discovery_topic e' serial)
          (get_discovery_topic e serial) (build e' serial prefix block) client in
      publish_all-retained i e entities _ apart found
      ∙ ap (kept_at (paho.marshal (build e serial prefix block))) (same ∙ rw other refl)

-- After the discovery each entity's topic retains its message, where that can be marshalled, and
-- what it retained before where it cannot; the broker retains messages as MQTT promises.
pub publish_discovery-retained :
    {B C : Type 0} (paho : Connection B C (Message ℤ)) (broker : IsRetaining paho)
    (serial prefix : Bytes) (i : ℕ) (e : EntityConfig ℤ) (client : Client B C)
    → get_elem? all_entities i ≡ some e
    → broker.retained
        (get_discovery_topic e serial)
        (publish_discovery paho serial prefix client).connection
      ≡ kept_at
          (paho.marshal (build e serial prefix (create_device_block serial)))
          (broker.retained (get_discovery_topic e serial) client.connection)
unfolding publish_discovery
publish_discovery-retained paho broker serial prefix i e client found =
    publish_all-retained paho broker serial prefix (create_device_block serial) i e all_entities
      client (all_entities-Apart serial) found
