-- ===== src/Monitor/Round.antt =====
-- monitor/monitor.go over nbe/nbe.go: one round of each monitor's loop.
pub mod Boiler
mod Examples
use boiler_mate.Prelude.{[], Bytes, codes, ◌++◌, Option, some, none}
use boiler_mate.Go.Map.{Map}
use boiler_mate.Nbe.Types.{
  Runtime, Function, Value, get_setup_function, get_operating_data_function,
  get_advanced_data_function,
}
use boiler_mate.Nbe.Action.{Outcome, ok, err, panic}
use boiler_mate.Nbe.Response.{NbeResponse}
use boiler_mate.Nbe.Client.{Nbe, Call, get_request}
use boiler_mate.Nbe.Client.Connect.{exchange}
use boiler_mate.Monitor.{
  Libraries, Monitor, settings_response, operating_response, advanced_response,
}

-- A monitor's callback, with its change set.
abbrev pub Callback : Type 0 → Type 0 → Type 0
Callback F R = Map Bytes (Value F) → Monitor F R → Outcome (Monitor F R × Map Bytes (Value F))

module _ {F R C : Type 0} where
  -- The callback, where it is called; without a call the monitor publishes nothing.
  unfoldable pub called_back :
      Callback F R
      → Outcome (Option (C × NbeResponse F))
      → Monitor F R
      → Outcome (Monitor F R × Map Bytes (Value F))
  called_back callback (ok (some (cb, response))) m = callback response.payload m
  called_back callback (ok none) m = ok (m, [])
  called_back callback (err e) m = err e
  called_back callback panic m = panic

  module _ {S : Type 0} (runtime : Runtime F) (network : Bytes → S → S × Option Bytes) where
    -- `GetAsync`, and its callback if the response comes.
    unfoldable pub round :
        Callback F R
        → Function
        → Bytes
        → Call
        → C
        → Nbe C
        → S
        → Monitor F R
        → Nbe C × S × Outcome (Monitor F R × Map Bytes (Value F))
    unfolding called_back exchange
    round callback function path call cb nbe s m =
        let done = exchange runtime network call (get_request nbe function path) cb nbe s in
        (done.0, done.1, called_back callback done.2 m)

    -- The rounds of `StartSettingsMonitorWithReady`, `StartOperatingDataMonitor` and
    -- `StartAdvancedDataMonitor`.
    abbrev pub settings_round :
        Libraries F R
        → Bytes
        → Call
        → C
        → Nbe C
        → S
        → Monitor F R
        → Nbe C × S × Outcome (Monitor F R × Map Bytes (Value F))
    settings_round libraries category =
        round (λ payload m. ok (settings_response libraries category payload m)) get_setup_function
          (category ++ codes ".*")

    abbrev pub operating_round :
        Libraries F R
        → Call
        → C
        → Nbe C
        → S
        → Monitor F R
        → Nbe C × S × Outcome (Monitor F R × Map Bytes (Value F))
    operating_round libraries =
        round (operating_response libraries) get_operating_data_function (codes "*")

    abbrev pub advanced_round :
        Libraries F R
        → Call
        → C
        → Nbe C
        → S
        → Monitor F R
        → Nbe C × S × Outcome (Monitor F R × Map Bytes (Value F))
    advanced_round libraries =
        round (advanced_response libraries) get_advanced_data_function (codes "*")
