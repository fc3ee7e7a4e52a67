-- ===== src/Monitor/Round/Examples.antt =====
-- Examples of a settings monitor's rounds on the simulated boiler.
use boiler_mate.Go.Decimal.{decimal}
use boiler_mate.Go.Format.{format_int}
use boiler_mate.Go.Split.{join}
use boiler_mate.Nbe.Payload.{show_scalar, serialize_payload}
use boiler_mate.Nbe.Mock.{as_payload}
use boiler_mate.Prelude.{ℕ, ◌≡◌, refl, [], ◌∷◌, Bytes, codes, arith, bytes_eq}
use boiler_mate.Prelude.Int.{pos}
use boiler_mate.Nbe.Action.{ok}
use boiler_mate.Monitor.{Monitor}
use boiler_mate.Go.Map.{Map, lookup}
use boiler_mate.Nbe.Mock.{as_payload}
use boiler_mate.Nbe.Payload.{serialize_payload, show_scalar}
use boiler_mate.Go.Split.{join}
use boiler_mate.Go.Format.{format_int}
use boiler_mate.Go.Decimal.{decimal}
use boiler_mate.Nbe.Types.{Scalar, Value, int64}
use boiler_mate.Nbe.Fixtures.{whole, client, boiler, call}
use boiler_mate.Nbe.Client.Connect.Ready.{IsReady}
use boiler_mate.Monitor.Changes.{changed}
use boiler_mate.Monitor.Fixtures.{libraries, libraries-IsEqual, start}
use boiler_mate.Monitor.Round.Boiler.{
  Holds, next, boiler_round, entries_read, settings_round-changes, settings_round-again,
}

client-IsReady : IsReady whole client 6
client-IsReady = record {
  app_ascii = ground arith;
  app_full = refl;
  controller_ascii = ground arith;
  controller_full = refl;
  seq_no_is = refl;
  seq_no_two = omega arith;
  queue_empty = refl;
}

boiler-Holds : Holds whole (codes "boiler") boiler ((codes "temp", int64 (pos 65)) ∷ [])
unfolding lookup as_payload serialize_payload join show_scalar format_int decimal
boiler-Holds = record {
  found_entries = refl;
  writable = ((ground arith, ground arith), tt);
  keys_ne = (tt, tt);
  short_payload = omega arith;
}

abbrev temp : Map Bytes (Scalar ℕ)
temp = (codes "temp", int64 (pos 65)) ∷ []

settings_round-changes_example :
    IsReady whole (next client 6) 7
    × (m' : Monitor ℕ (Map Bytes Bytes)) × (changes : Map Bytes (Value ℕ)) × (boiler_round libraries
          whole
          (codes "boiler")
          call
          5
          client
          boiler
          start
        ≡ (next client 6, boiler, ok (m', changes)))
    × ((k : Bytes)
        → lookup k changes
          ≡ changed libraries (codes "boiler") start k (lookup k (entries_read whole temp)))
settings_round-changes_example =
    settings_round-changes libraries whole (codes "boiler") call 5 client boiler start temp
      client-IsReady (refl, omega arith, refl, refl) (refl, omega arith) boiler-Holds

settings_round-again_example :
    (m' m'' : Monitor ℕ (Map Bytes Bytes)) × (changes : Map Bytes (Value ℕ)) × (boiler_round
        libraries whole
        (codes "boiler")
        call
        5
        client
        boiler
        start
      ≡ (next client 6, boiler, ok (m', changes)))
    × (boiler_round libraries whole (codes "boiler") call 6 (next client 6) boiler m'
        ≡ (next (next client 6) 7, boiler, ok (m'', [])))
settings_round-again_example =
    settings_round-again libraries whole (codes "boiler") libraries-IsEqual call call 5 6 client
      boiler start temp client-IsReady (refl, omega arith, refl, refl)
      (refl, omega arith, refl, refl) (refl, omega arith) boiler-Holds
