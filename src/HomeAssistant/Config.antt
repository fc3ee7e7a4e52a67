-- ===== src/HomeAssistant/Config.antt =====
-- homeassistant/entity_types.go: an entity, its discovery message and its topic. The type `V` is
-- what a bound's `interface{}` holds.
use boiler_mate.Prelude.{
  zero, suc, Bool, true, false, ◌&&◌, List, [], ◌∷◌, ◌++◌, Bytes, codes, Option, none, some,
  if◌then◌else◌, ◌==◌, bytes_eq, eqb,
}
use boiler_mate.Prelude.Int.{ℤ, pos, negsuc}
use boiler_mate.Go.Map.{Map, insert, delete}
use boiler_mate.Mqtt.{under}

pub data EntityType : Type 0 where
  sensor number button switch : EntityType

-- The text of an `EntityType`.
unfoldable pub type_name : EntityType → Bytes
type_name sensor = codes "sensor"
type_name number = codes "number"
type_name button = codes "button"
type_name switch = codes "switch"

pub record EntityConfig (V : Type 0) : Type 0 where
  pub key : Bytes
  pub name : Bytes
  pub entity_type : EntityType
  pub entity_category : Bytes
  pub device_class : Bytes
  pub icon : Bytes
  pub unit : Bytes
  pub state_topic : Bytes
  pub command_topic : Bytes
  pub precision : ℤ
  pub min_value : Option V
  pub max_value : Option V
  pub step : Bytes
  pub mode : Bytes
  pub payload_press : Bytes

-- A value of the device block.
pub data DeviceField : Type 0 where
  line : Bytes → DeviceField
  lines : List Bytes → DeviceField

abbrev pub Device : Type 0
Device = Map Bytes DeviceField

-- A value of a discovery message.
pub data Field (V : Type 0) : Type 0 where
  text : Bytes → Field V
  int : ℤ → Field V
  bound : V → Field V
  device : Device → Field V

abbrev pub Message : Type 0 → Type 0
Message V = Map Bytes (Field V)

-- `s != ""`.
abbrev pub is_set : Bytes → Bool
is_set [] = false
is_set (c ∷ s) = true

-- `n > 0`.
abbrev is_positive : ℤ → Bool
is_positive (pos zero) = false
is_positive (pos (suc n)) = true
is_positive (negsuc n) = false

abbrev pub is_number : EntityType → Bool
is_number number = true
is_number _ = false

abbrev pub is_button : EntityType → Bool
is_button button = true
is_button _ = false

abbrev pub is_switch : EntityType → Bool
is_switch switch = true
is_switch _ = false

-- A topic that begins with a slash is absolute, and any other one stands below the prefix.
abbrev pub resolve : Bytes → Bytes → Bytes
resolve prefix [] = under prefix []
resolve prefix (c ∷ topic) = if eqb c b'/' then topic else under prefix (c ∷ topic)

module _ {V : Type 0} where
  abbrev pub is_temperature : EntityConfig V → Bool
  is_temperature e = e.device_class == codes "temperature"

  -- `if test { config[key] = value }`.
  unfoldable pub put : Bool → Bytes → Field V → Message V → Message V
  put test key value config = if test then insert key value config else config

  -- `if value != nil { config[key] = value }`.
  unfoldable pub put_bound : Option V → Bytes → Message V → Message V
  put_bound none key config = config
  put_bound (some v) key config = insert key (bound v) config

  unfoldable pub start : EntityConfig V → Bytes → Bytes → Device → Message V
  start e serial prefix block =
      (codes "name", text e.name)
      ∷ (codes "uniq_id", text (codes "nbe_" ++ (serial ++ (b'_' ∷ e.key))))
      ∷ (codes "avty_t", text (under prefix (codes "device/status")))
      ∷ (codes "dev", device block)
      ∷ []

  -- The fields that are added only where they are set.
  unfoldable pub add_optional : EntityConfig V → Message V → Message V
  unfolding put
  add_optional e config =
      let config1 =
        put (is_set e.entity_category) (codes "entity_category") (text e.entity_category) config in
      let config2 =
        put (is_set e.device_class) (codes "device_class") (text e.device_class) config1 in
      let config3 = put (is_set e.icon) (codes "ic") (text e.icon) config2 in
      let config4 =
        if is_temperature e
        then put (is_set e.unit) (codes "suggested_unit_of_measurement") (text e.unit)
            (put (is_set e.unit) (codes "native_unit_of_measurement") (text e.unit) config3)
        else put (is_set e.unit) (codes "unit_of_measurement") (text e.unit) config3 in
      put (is_positive e.precision) (codes "suggested_display_precision") (int e.precision) config4

  unfoldable pub add_topics : EntityConfig V → Bytes → Message V → Message V
  unfolding put
  add_topics e prefix config =
      put (is_set e.command_topic) (codes "cmd_t") (text (resolve prefix e.command_topic))
        (put (is_set e.state_topic) (codes "stat_t") (text (resolve prefix e.state_topic)) config)

  unfoldable pub add_number : EntityConfig V → Message V → Message V
  unfolding put put_bound
  add_number e config =
      let config1 = put (is_set e.mode) (codes "mode") (text e.mode) config in
      let config2 =
        if is_temperature e
        then put_bound e.min_value (codes "native_min_value") config1
        else put_bound e.min_value (codes "min") config1 in
      let config3 =
        if is_temperature e
        then put_bound e.max_value (codes "native_max_value") config2
        else put_bound e.max_value (codes "max") config2 in
      let config4 =
        if is_temperature e
        then put (is_set e.step) (codes "native_step") (text e.step) config3
        else put (is_set e.step) (codes "step") (text e.step) config3 in
      if is_number e.entity_type then config4 else config

  unfoldable pub add_button : EntityConfig V → Message V → Message V
  unfolding put
  add_button e config =
      put (is_button e.entity_type && is_set e.payload_press) (codes "payload_press")
        (text e.payload_press) config

  unfoldable pub add_switch : EntityConfig V → Bytes → Message V → Message V
  add_switch e prefix config =
      if is_switch e.entity_type && is_set e.state_topic
      then insert (codes "state_topic") (text (under prefix e.state_topic))
          (delete (codes "stat_t") config)
      else config

  -- `EntityConfig.Build`.
  unfoldable pub build : EntityConfig V → Bytes → Bytes → Device → Message V
  unfolding start add_optional add_topics add_number add_button add_switch
  build e serial prefix block = add_switch e prefix (
      add_button e
        (add_number e (add_topics e prefix (add_optional e (start e serial prefix block)))))

  -- `EntityConfig.GetDiscoveryTopic`.
  unfoldable pub get_discovery_topic : EntityConfig V → Bytes → Bytes
  unfolding type_name
  get_discovery_topic e serial =
      codes "homeassistant/"
      ++ (type_name e.entity_type
          ++ (codes "/nbe_" ++ (serial ++ (b'/' ∷ (e.key ++ codes "/config")))))
