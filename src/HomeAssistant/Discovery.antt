-- ===== src/HomeAssistant/Discovery.antt =====
-- homeassistant/discovery.go: the publishing of all discovery messages.
pub mod Retained
use boiler_mate.Prelude.{List, [], ◌∷◌, ◌++◌, Bytes, codes}
use boiler_mate.Prelude.Int.{ℤ}
use boiler_mate.Mqtt.{Connection, Client, publish_json}
use boiler_mate.HomeAssistant.Config.{
  EntityConfig, Device, line, lines, Message, build, get_discovery_topic,
}
use boiler_mate.HomeAssistant.Entities.{all_entities}

unfoldable pub create_device_block : Bytes → Device
create_device_block serial =
    (codes "ids", lines ((codes "nbe_" ++ serial) ∷ []))
    ∷ (codes "name", line (codes "NBE Boiler (" ++ (serial ++ codes ")")))
    ∷ (codes "sw", line (codes "boiler-mate"))
    ∷ (codes "mf", line (codes "NBE"))
    ∷ (codes "sa", line [])
    ∷ []

-- The loop of `publishEntities` over the client: an error is only logged.
unfoldable pub publish_all :
    {B C X : Type 0}
    → Connection B C (Message X)
    → List (EntityConfig X)
    → Bytes
    → Bytes
    → Device
    → Client B C
    → Client B C
unfolding build get_discovery_topic
publish_all paho [] serial prefix block client = client
publish_all paho (e ∷ entities) serial prefix block client =
    publish_all paho entities serial prefix block
      (publish_json paho (get_discovery_topic e serial) (build e serial prefix block) client).0

-- `PublishDiscovery`, when the data is ready.
unfoldable pub publish_discovery :
    {B C : Type 0} → Connection B C (Message ℤ) → Bytes → Bytes → Client B C → Client B C
unfolding publish_all all_entities create_device_block
publish_discovery paho serial prefix client =
    publish_all paho all_entities serial prefix (create_device_block serial) client
