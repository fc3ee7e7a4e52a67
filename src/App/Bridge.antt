-- ===== src/App/Bridge.antt =====
-- cmd/boiler-mate/main.go: the parts that main connects, with the simulated boiler as the boiler.
-- A step is a message on a set topic, or a round of the settings monitor of one category with what
-- it publishes; each runs to its end.
mod Entries
pub mod Commands
mod Fixtures
pub mod Runs
mod Examples
use boiler_mate.Prelude.{[], ◌++◌, Bytes, codes, Option, some, none}
use boiler_mate.Nbe.Types.{Runtime, Value, get_setup_function}
use boiler_mate.Nbe.Action.{Outcome, ok, err, panic}
use boiler_mate.Nbe.Response.{NbeResponse}
use boiler_mate.Nbe.Mock.{MockBoiler}
use boiler_mate.Nbe.Client.{Nbe, Call, get_request, set_request}
use boiler_mate.Nbe.Client.Connect.{exchange}
use boiler_mate.Nbe.Client.Connect.Boiler.{boiler_network}
use boiler_mate.Monitor.{Libraries, Monitor}
use boiler_mate.Monitor.Published.{publish_response}
use boiler_mate.Mqtt.{Connection, Client}
use boiler_mate.App.{parse_set_topic, translate_power_command}

-- What main holds: the boiler's client, the monitor of one category, and the MQTT client; and the
-- boiler. A callback of the boiler's client is the key and the value of a command.
pub record Bridge (F R B D : Type 0) : Type 0 where
  pub nbe : Nbe (Bytes × Bytes)
  pub boiler : MockBoiler F
  pub monitor : Monitor F R
  pub client : Client B D

module _ {F R B D : Type 0} (runtime : Runtime F) (libraries : Libraries F R)
    (paho : Connection B D (Value F)) (category : Bytes) where
  -- An error is only logged.
  logged :
      Outcome (Option ((Bytes × Bytes) × NbeResponse F)) → Bridge F R B D → Outcome (Bridge F R B D)
  logged (ok answer) bridge = ok bridge
  logged (err e) bridge = ok bridge
  logged panic bridge = panic

  -- The subscriber of `set/+/+`, and the answer to its request, which is only logged.
  unfoldable pub command : Call → Bytes → Bytes → Bridge F R B D → Outcome (Bridge F R B D)
  unfolding exchange logged
  command call topic payload bridge =
      let key_value = translate_power_command (parse_set_topic topic) payload in
      let request = set_request bridge.nbe key_value.0 key_value.1 in
      let done =
        exchange runtime (boiler_network runtime) call request key_value bridge.nbe bridge.boiler in
      logged done.2 (record bridge { nbe = done.0; boiler = done.1 })

  polled :
      Outcome (Option ((Bytes × Bytes) × NbeResponse F)) → Bridge F R B D → Outcome (Bridge F R B D)
  unfolding publish_response
  polled (ok (some (cb, response))) bridge =
      let done =
        publish_response libraries paho category response.payload (bridge.monitor, bridge.client) in
      ok (record bridge { monitor = done.0; client = done.1 })
  polled (ok none) bridge = ok bridge
  polled (err e) bridge = ok bridge
  polled panic bridge = panic

  -- A round of `StartSettingsMonitorWithReady`.
  unfoldable pub poll : Call → Bridge F R B D → Outcome (Bridge F R B D)
  unfolding exchange polled
  poll call bridge =
      let request = get_request bridge.nbe get_setup_function (category ++ codes ".*") in
      let done =
        exchange runtime (boiler_network runtime) call request ([], []) bridge.nbe bridge.boiler in
      polled done.2 (record bridge { nbe = done.0; boiler = done.1 })
