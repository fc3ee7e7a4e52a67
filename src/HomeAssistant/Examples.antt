-- ===== src/HomeAssistant/Examples.antt =====
-- The package homeassistant: tests, and the theorems at a concrete boiler.
use boiler_mate.Prelude.{
  ℕ, ◌≡◌, refl, true, [], ◌++◌, Bytes, codes, none, some, if◌then◌else◌, All, bytes_eq,
}
use boiler_mate.Prelude.Int.{ℤ, pos}
use boiler_mate.Go.Map.{Map, lookup, insert}
use boiler_mate.Mqtt.{Connection, Client}
use boiler_mate.Mqtt.Retained.{IsRetaining, kept_at}
use boiler_mate.Prelude.{◌==◌, Bool, false, []}
use boiler_mate.Mqtt.{publish_online}
use boiler_mate.Mqtt.Options.{
  Uri, Files, ClientOptions, options_of, create_client_options, secured, new_client,
}
use boiler_mate.HomeAssistant.Availability.{new_client-availability}
use boiler_mate.Mqtt.Fixtures.{store, lookup-store}
use boiler_mate.HomeAssistant.Config.{
  EntityConfig, Message, Field, text, build, get_discovery_topic, number,
}
use boiler_mate.HomeAssistant.Entities.{numbers, buttons, all_entities}
use boiler_mate.HomeAssistant.Topics.{Apart, all_entities-Apart}
use boiler_mate.HomeAssistant.Controls.{IsControl, controls-IsControl}
use boiler_mate.HomeAssistant.Discovery.{publish_discovery, create_device_block}
use boiler_mate.HomeAssistant.Discovery.Retained.{publish_discovery-retained}

abbrev serial : Bytes
serial = codes "12345"

abbrev prefix : Bytes
prefix = codes "nbe/12345"

-- `hopper_content`, and `power` as its switch.
abbrev hopper : EntityConfig ℤ
hopper = record {
  key = codes "hopper_content";
  name = codes "Hopper";
  entity_type = number;
  entity_category = codes "config";
  device_class = codes "weight";
  icon = codes "mdi:storage-tank";
  unit = codes "kg";
  state_topic = codes "hopper/content";
  command_topic = codes "set/hopper/content";
  precision = pos 1;
  min_value = some (pos 0);
  max_value = some (pos 999);
  step = codes "1";
  mode = codes "box";
  payload_press = [];
}

hopper_topic :
    get_discovery_topic hopper serial ≡ codes "homeassistant/number/nbe_12345/hopper_content/config"
unfolding get_discovery_topic
hopper_topic = refl

hopper_max : lookup (codes "max") (build hopper serial prefix []) ≡ some (Field.bound (pos 999))
unfolding build lookup insert
hopper_max = refl

all_entities-Apart_example : Apart serial all_entities
all_entities-Apart_example = all_entities-Apart serial

controls-IsControl_example : All (IsControl serial prefix []) (numbers ++ buttons)
controls-IsControl_example = controls-IsControl serial prefix []

-- A broker that is the table of the retained messages.
abbrev paho : Connection (Map Bytes Bytes) ℕ (Message ℤ)
paho = record {
  publish = λ topic qos retained payload b. if retained then store topic payload b else b;
  subscribe = λ topic qos callback b. (b, true);
  marshal = λ message. some (codes "{}");
}

abbrev retaining : IsRetaining paho
retaining = record {
  retained = λ topic b. lookup topic b;
  retained_publish = λ topic topic' qos payload b. lookup-store topic topic' payload b;
}

abbrev client : Client (Map Bytes Bytes) ℕ
client = record { prefix = prefix; connection = []; subscriptions = [] }

publish_discovery-retained_example :
    retaining.retained
      (get_discovery_topic hopper serial)
      (publish_discovery paho serial prefix client).connection
    ≡ kept_at
        (paho.marshal (build hopper serial prefix (create_device_block serial)))
        (retaining.retained (get_discovery_topic hopper serial) client.connection)
unfolding all_entities
publish_discovery-retained_example =
    publish_discovery-retained paho retaining serial prefix 19 hopper client refl

abbrev broker_uri : Uri
broker_uri = record {
  scheme = codes "mqtts";
  hostname = codes "localhost";
  port = [];
  username = codes "user";
  password = codes "secret";
  query = λ name. if name == codes "tls_cacert" then codes "ca.pem" else [];
}

-- No certificate can be loaded, and every file holds the same.
abbrev files : Files (Unit {0})
files = record { load_x509_key_pair = λ cert key. none; read_file = λ name. some (codes "roots") }

abbrev dial : ClientOptions (Unit {0}) → Map Bytes Bytes × Bool
dial opts = ([], true)

abbrev secure_options : ClientOptions (Unit {0})
secure_options = options_of files broker_uri (codes "nbemqtt-12345") prefix (
    some (record {
      insecure_skip_verify = false;
      certificate = none;
      root_cas = some (codes "roots");
    }))

abbrev connected : Client (Map Bytes Bytes) ℕ
connected = publish_online paho (record { prefix = prefix; connection = []; subscriptions = [] })

-- Only what the URL asks for is loaded.
roots_loaded :
    new_client files paho dial broker_uri (codes "nbemqtt-12345") prefix
    ≡ some (secure_options, connected, true)
unfolding new_client secured
roots_loaded = refl

-- A certificate that cannot be loaded ends the program.
no_certificate :
    create_client_options files
      (record broker_uri { query = λ name. codes "missing.pem" })
      (codes "nbemqtt-12345")
      prefix
    ≡ none
unfolding create_client_options secured
no_certificate = refl

new_client-availability_example :
    (lookup (codes "avty_t") (build hopper serial connected.prefix (create_device_block serial))
      ≡ some (text secure_options.will_topic))
    × (retaining.retained secure_options.will_topic connected.connection ≡ some (codes "online"))
    × (retaining.retained secure_options.will_topic (
          paho.publish secure_options.will_topic secure_options.will_qos
            secure_options.will_retained secure_options.will_payload connected.connection)
        ≡ some (codes "offline"))
new_client-availability_example =
    new_client-availability paho retaining files dial broker_uri (codes "nbemqtt-12345") prefix
      roots_loaded hopper serial (create_device_block serial)
