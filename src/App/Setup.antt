-- ===== src/App/Setup.antt =====
-- cmd/boiler-mate/main.go: how main sets its parts up, one behind the other, and where it ends when
-- a part fails. `url.Parse`, the network of the boiler, the broker and its files are arguments.
pub mod Running
pub mod Silent
mod Examples
use boiler_mate.Prelude.{
  ℕ, Bool, true, false, List, [], ◌∷◌, ◌++◌, Bytes, codes, Option, some, none,
}
use boiler_mate.Config.{Config}
use boiler_mate.Go.Map.{Map}
use boiler_mate.Nbe.Types.{Runtime}
use boiler_mate.Nbe.Action.{Outcome, ok, err, panic}
use boiler_mate.Nbe.Client.{Nbe, Call}
use boiler_mate.Nbe.Client.Connect.{KeyFormat, new_nbe, connect}
use boiler_mate.Mqtt.{Connection, Client, Message, string, subscribe, publish_many}
use boiler_mate.Mqtt.Options.{Uri, Files, ClientOptions, new_client}
use boiler_mate.App.{determine_mqtt_prefix}

-- `url.URL`.
pub record Url : Type 0 where
  pub uri : Uri
  pub path : Bytes

-- What main holds when it waits, over the state of the boiler's network.
pub record Parts (S B D : Type 0) : Type 0 where
  pub boiler : Nbe (Bytes × Bytes)
  pub network_state : S
  pub mqtt_client : Client B D

-- How the set-up ends: main goes on, panics, or exits with an error.
pub data Ended (S B D : Type 0) : Type 0 where
  running : Parts S B D → Ended S B D
  panicked exited : Ended S B D

-- The values of the topic `device`.
abbrev pub device_status : {C V : Type 0} → Nbe C → Map Bytes (Message V)
device_status boiler =
    (codes "status", string (codes "online"))
    ∷ (codes "serial", string boiler.serial)
    ∷ (codes "ip_address", string boiler.ip_address)
    ∷ []

module _ {B D V : Type 0} (paho : Connection B D V) (handler : D) where
  -- The subscription of `set/+/+` and the status; their errors are only logged.
  unfoldable pub subscribed : Nbe (Bytes × Bytes) → Client B D → Client B D
  subscribed boiler client =
      let listening = (subscribe paho (codes "set/+/+") 1 handler client).0 in
      (publish_many paho (codes "device") (device_status boiler) listening).0

module _ {F S B D K V : Type 0} (runtime : Runtime F) (network : Bytes → S → S × Option Bytes)
    (format : KeyFormat) (files : Files K) (paho : Connection B D V)
    (dial : ClientOptions K → B × Bool) (parse : Bytes → Option Url) (handler : D) where
  with_client : Nbe (Bytes × Bytes) → S → Option (ClientOptions K × Client B D × Bool) → Ended S B D
  unfolding subscribed
  with_client boiler s none = exited
  with_client boiler s (some (opts, client, false)) = exited
  with_client boiler s (some (opts, client, true)) = running (record {
    boiler = boiler;
    network_state = s;
    mqtt_client = subscribed paho handler boiler client;
  })

  with_url : Nbe (Bytes × Bytes) → S → Option Url → Ended S B D
  unfolding with_client
  with_url boiler s none = exited
  with_url boiler s (some mqtt_url) =
      let mqtt_prefix = determine_mqtt_prefix mqtt_url.path boiler.serial in
      with_client boiler s
        (new_client files paho dial mqtt_url.uri (codes "nbemqtt-" ++ boiler.serial) mqtt_prefix)

  with_boiler : Config → Nbe (Bytes × Bytes) × S × Outcome (Unit {0}) → Ended S B D
  unfolding with_url
  with_boiler cfg (boiler, s, ok _) = with_url boiler s (parse cfg.mqtt_url)
  with_boiler cfg (boiler, s, err e) = panicked
  with_boiler cfg (boiler, s, panic) = panicked

  -- What `rand.Int` draws for NewNBE, and its two calls of Send.
  abbrev pub Draws : Type 0
  Draws = (List ℕ × List ℕ) × (Call × Call)

  with_address : Config → Draws → S → Option Url → Ended S B D
  unfolding with_boiler
  with_address cfg draws s none = panicked
  with_address cfg (names, calls) s (some url) = with_boiler cfg (
      connect runtime network format calls.0 calls.1 ([], []) ([], [])
        (new_nbe names.0 names.1 url.uri.username url.uri.password url.uri.hostname) s)

  -- main up to the start of the monitors.
  unfoldable pub set_up : Config → Draws → S → Ended S B D
  unfolding with_address
  set_up cfg draws s = with_address cfg draws s (parse cfg.controller_url)
