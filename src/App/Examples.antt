-- ===== src/App/Examples.antt =====
-- cmd/boiler-mate/main.go: tests, and the theorems at concrete messages.
use boiler_mate.Prelude.{
  ◌<◌, length, ◌≤◌, ◌≡◌, refl, arith, Bytes, codes, [], ◌∷◌, ◌++◌, some, if◌then◌else◌, ◌==◌, ◌&&◌,
  bytes_eq,
}
use boiler_mate.Prelude.Int.{pos}
use boiler_mate.Nbe.Types.{text}
use boiler_mate.Nbe.Request.RoundTrip.{Fits}
use boiler_mate.Nbe.Mock.{handle_request, get_value, set_value}
use boiler_mate.Nbe.Client.{Nbe, next_seq, set_request}
use boiler_mate.Nbe.Fixtures.{whole, boiler, call, pair, sevens-IsRandom, public}
use boiler_mate.App.{determine_mqtt_prefix, translate_power_command, set_handler}
use boiler_mate.App.Topics.{set_topic}
use boiler_mate.App.Settings.{sent_request, is_on, set_handler-get_value, set_handler-power_switch}

own_prefix :
    determine_mqtt_prefix (codes "/heating/cellar") (codes "12345") ≡ codes "heating/cellar"
unfolding determine_mqtt_prefix
own_prefix = refl

serial_prefix : determine_mqtt_prefix (codes "/") (codes "12345") ≡ codes "nbe/12345"
unfolding determine_mqtt_prefix
serial_prefix = refl

switched_off :
    translate_power_command (codes "device.power_switch") (codes "OFF")
    ≡ (codes "misc.stop", codes "1")
unfolding translate_power_command
switched_off = refl

abbrev nbe : Nbe (Bytes × Bytes)
nbe = record {
  app_id = codes "ABCDEFGHIJKL";
  controller_id = codes "MNOPQR";
  serial = codes "12345";
  ip_address = codes "192.168.1.100";
  seq_no = pos 6;
  pin_code = codes "0123456789";
  rsa_key = some public;
  queue = [];
}

request-Fits :
    (path value : Bytes)
    → 1 ≤ length (path ++ (b'=' ∷ value))
    → length (path ++ (b'=' ∷ value)) < 1000
    → Fits call.now 2 7 1700000000 (sent_request nbe path value)
unfolding next_seq set_request
request-Fits path value some_bytes few = record {
  app_ascii = omega arith;
  app_some = omega arith;
  app_short = omega arith;
  controller_ascii = omega arith;
  controller_some = omega arith;
  controller_short = omega arith;
  function_is = refl;
  function_two = omega arith;
  seq_no_is = refl;
  seq_no_two = omega arith;
  pin_ascii = omega arith;
  pin_short = omega arith;
  stamp_is = refl;
  stamp_ten = omega arith;
  payload_some = some_bytes;
  payload_three = few;
}

set_handler-get_value_example :
    (packet : Bytes) × ((set_handler call
        (set_topic (codes "nbe/12345") (codes "boiler") (codes "temp"))
        (codes "70")
        nbe).1
      ≡ some packet)
    × ((category' param' : Bytes)
        → get_value category' param' (handle_request whole boiler packet).0.settings ≡ (
            if codes "boiler" == category' && codes "temp" == param'
            then some (text (codes "70"))
            else get_value category' param' boiler.settings))
set_handler-get_value_example =
    set_handler-get_value whole boiler call (codes "nbe/12345") (codes "70") nbe pair
      sevens-IsRandom refl refl refl (codes "boiler") (codes "temp") (ground arith) (ground arith)
      (ground arith) (ground arith) refl
      (request-Fits (codes "boiler" ++ (b'.' ∷ codes "temp")) (codes "70") (omega arith)
        (omega arith))
      (ground arith) (omega arith)

set_handler-power_switch_example :
    (packet : Bytes) × ((set_handler call
        (set_topic (codes "nbe/12345") (codes "device") (codes "power_switch"))
        (codes "OFF")
        nbe).1
      ≡ some packet)
    × ((handle_request whole boiler packet).0.settings
        ≡ set_value
            (codes "misc")
            (if is_on (codes "OFF") then codes "start" else codes "stop")
            (text (codes "1"))
            boiler.settings)
set_handler-power_switch_example =
    set_handler-power_switch whole boiler call (codes "nbe/12345") (codes "OFF") nbe pair
      sevens-IsRandom refl refl refl
      (request-Fits (codes "misc.stop") (codes "1") (omega arith) (omega arith))
