-- ===== src/App.antt =====
-- cmd/boiler-mate/main.go: the topics and commands between MQTT and the boiler. A callback is the
-- key and the value that it logs.
pub mod Topics
pub mod Settings
pub mod Startup
pub mod Bridge
pub mod Setup
mod Examples
use boiler_mate.Prelude.{
  ◌+◌, List, [], ◌∷◌, ◌++◌, Bytes, codes, Option, none, some, ltb, if◌then◌else◌, length, drop,
  ◌==◌, bytes_eq, ◌||◌,
}
use boiler_mate.Go.Split.{split}
use boiler_mate.Nbe.Client.{Nbe, Call, Sent, set_async}

-- `determineMQTTPrefix`, on the path of the URL.
unfoldable pub determine_mqtt_prefix : Bytes → Bytes → Bytes
determine_mqtt_prefix path serial =
    if ltb 1 (length path) then drop 1 path else codes "nbe/" ++ serial

-- `topicParts[len(topicParts)-2], topicParts[len(topicParts)-1]`; `none` where there are fewer.
unfoldable pub last_two : List Bytes → Option (Bytes × Bytes)
last_two [] = none
last_two (p ∷ []) = none
last_two (p ∷ (q ∷ [])) = some (p, q)
last_two (p ∷ (q ∷ (r ∷ ps))) = last_two (q ∷ (r ∷ ps))

abbrev dotted : Option (Bytes × Bytes) → Bytes
dotted none = []
dotted (some (p, q)) = p ++ (b'.' ∷ q)

-- `parseSetTopic`.
unfoldable pub parse_set_topic : Bytes → Bytes
parse_set_topic topic = dotted (last_two (split b'/' topic))

-- `translatePowerCommand`.
unfoldable pub translate_power_command : Bytes → Bytes → Bytes × Bytes
translate_power_command key value =
    if key == codes "device.power_switch"
    then (if value == codes "ON" || value == codes "1"
        then (codes "misc.start", codes "1")
        else (codes "misc.stop", codes "1"))
    else (key, value)

-- The subscriber of `set/+/+`.
unfoldable pub set_handler : Call → Bytes → Bytes → Nbe (Bytes × Bytes) → Sent (Bytes × Bytes)
set_handler call topic payload boiler =
    let command = translate_power_command (parse_set_topic topic) payload in
    set_async call command.0 command.1 command boiler
