-- ===== src/Monitor/Published.antt =====
-- monitor/monitor.go over mqtt/client.go: a response of a settings monitor with what it publishes.
pub mod Texts
pub mod Shown
pub mod Order
pub mod Failure
mod Examples
use boiler_mate.Prelude.{Bool, List, [], ◌∷◌, Bytes}
use boiler_mate.Go.Map.{Map}
use boiler_mate.Nbe.Types.{Value, scalar, text, int64, rounded, range}
use boiler_mate.Mqtt.{Connection, Client, Message, string, other, publish_many}
use boiler_mate.Monitor.{Libraries, Monitor, settings_response}

module _ {F : Type 0} where
  -- The case of the type switch in `PublishRaw` that a value of a payload falls into.
  unfoldable pub message_of : Value F → Message (Value F)
  message_of (scalar (text s)) = string s
  message_of (scalar (int64 z)) = other (scalar (int64 z))
  message_of (scalar (rounded x)) = other (scalar (rounded x))
  message_of (range low high default decimals) = other (range low high default decimals)

  unfoldable pub messages : Map Bytes (Value F) → Map Bytes (Message (Value F))
  messages [] = []
  messages ((key, value) ∷ changes) = (key, message_of value) ∷ messages changes

-- The callback of `StartSettingsMonitorWithReady` with its `PublishMany`, whose error is only
-- logged.
unfoldable pub publish_response :
    {F R B C : Type 0}
    → Libraries F R
    → Connection B C (Value F)
    → Bytes
    → Map Bytes (Value F)
    → Monitor F R × Client B C
    → Monitor F R × Client B C
unfolding messages message_of
publish_response libraries paho category payload (m, client) =
    let done = settings_response libraries category payload m in
    (done.0, (publish_many paho category (messages done.1) client).0)
