-- ===== src/App/Bridge/Fixtures.antt =====
-- A broker that is a table, a bridge over it, and the simulated boiler, for the examples.
use boiler_mate.Go.Parse.{parse_int}
use boiler_mate.Monitor.Round.Boiler.{Holds}
use boiler_mate.Go.Split.{join}
use boiler_mate.Go.Decimal.{decimal}
use boiler_mate.App.Bridge.Commands.{HaveAllTexts, with_setting, IsShown}
use boiler_mate.Nbe.Mock.{set_value, as_payload}
use boiler_mate.Go.Format.{format_int}
use boiler_mate.Nbe.Client.Connect.Ready.{IsReady}
use boiler_mate.App.Bridge.{Bridge}
use boiler_mate.Prelude.{
  not, some-injective, inr, inl, Bool-cases, ℕ, ◌≡◌, refl, true, [], ◌∷◌, Bytes, codes, some, arith,
  if◌then◌else◌, bytes_eq, ◌==◌,
}
use boiler_mate.Prelude.Int.{pos, int_eq}
use boiler_mate.Go.Map.{insert, Map, lookup}
use boiler_mate.Nbe.Types.{Scalar, int64, text, Value, scalar}
use boiler_mate.Mqtt.{payload_of, Connection}
use boiler_mate.Mqtt.Retained.{IsRetaining}
use boiler_mate.Mqtt.Fixtures.{store, lookup-store}
use boiler_mate.Monitor.Fixtures.{start}
use boiler_mate.Monitor.Published.{message_of}
use boiler_mate.Monitor.Published.Texts.{Json, IsDocumented, value_json, value_equal}
use boiler_mate.Monitor.{Libraries}
use mathlib.Core.Path.{subst}
use boiler_mate.Nbe.Fixtures.{public, whole, boiler}
use boiler_mate.Nbe.Payload.{parse_value, serialize_payload, show_scalar}

-- encoding/json without escapes, to which NaN is no number.
abbrev pub json : Json
json = record { quote = λ s. s; valid = λ n. not (n == codes "NaN") }

abbrev pub libraries : Libraries ℕ (Map Bytes Bytes)
libraries = record {
  equal = value_equal whole;
  register = λ subsystem name registry. (insert name subsystem registry, true);
}

abbrev pub paho : Connection (Map Bytes Bytes) ℕ (Value ℕ)
paho = record {
  publish = λ topic qos retained payload b. if retained then store topic payload b else b;
  subscribe = λ topic qos callback b. (b, true);
  marshal = value_json whole json;
}

abbrev pub documented : IsDocumented whole libraries paho
documented = record { json = json; marshal_is = λ v. refl; equal_is = λ o v. refl }

abbrev pub retaining : IsRetaining paho
retaining = record {
  retained = λ topic b. lookup topic b;
  retained_publish = λ topic topic' qos payload b. lookup-store topic topic' payload b;
}

abbrev pub prefix : Bytes
prefix = codes "nbe/12345"

abbrev pub bridge : Bridge ℕ (Map Bytes Bytes) (Map Bytes Bytes) ℕ
bridge = record {
  nbe = record {
    app_id = codes "ABCDEFGHIJKL";
    controller_id = codes "MNOPQR";
    serial = codes "12345";
    ip_address = codes "192.168.1.100";
    seq_no = pos 6;
    pin_code = codes "0123456789";
    rsa_key = some public;
    queue = [];
  };
  boiler = boiler;
  monitor = start;
  client = record {
    prefix = prefix;
    connection = (codes "nbe/12345/boiler/temp", codes "65") ∷ [];
    subscriptions = [];
  };
}

pub bridge-IsReady : IsReady whole bridge.nbe 6
bridge-IsReady = record {
  app_ascii = ground arith;
  app_full = refl;
  controller_ascii = ground arith;
  controller_full = refl;
  seq_no_is = refl;
  seq_no_two = omega arith;
  queue_empty = refl;
}

abbrev pub IsDisplayed : Bridge ℕ (Map Bytes Bytes) (Map Bytes Bytes) ℕ → Type 0
IsDisplayed b = IsShown whole libraries paho documented retaining (codes "boiler") b

pub bridge-IsShown : IsDisplayed bridge
unfolding lookup format_int decimal payload_of message_of
bridge-IsShown k v found = elim (Bool-cases (codes "temp" == k)) [
  | inl same_key ↦
      (let same : some (scalar (int64 (pos 65))) ≡ some v = ground (arith, found, same_key) in
        let value_is = some-injective (scalar (int64 (pos 65))) v same in
        (
          codes "65",
          subst (λ w. payload_of paho (message_of w) ≡ some (codes "65")) value_is refl,
          rw same_key refl,
        ))
  | inr other ↦ absurd (ground (arith, found, other))
]

abbrev pub warmer : Map Bytes (Scalar ℕ)
warmer = (codes "temp", text (codes "70")) ∷ []

pub warmer-Holds :
    Holds whole
      (codes "boiler")
      (with_setting (codes "boiler") (codes "temp") (codes "70") boiler)
      warmer
unfolding lookup as_payload serialize_payload join show_scalar format_int decimal set_value insert
warmer-Holds = record {
  found_entries = refl;
  writable = ((ground arith, ground arith), tt);
  keys_ne = (tt, tt);
  short_payload = omega arith;
}

-- The bridge with the boiler changed at its own panel.
abbrev pub warmer_bridge : Bridge ℕ (Map Bytes Bytes) (Map Bytes Bytes) ℕ
warmer_bridge = record bridge {
  boiler = with_setting (codes "boiler") (codes "temp") (codes "70") boiler;
}

pub warmer-HaveTexts :
    HaveAllTexts whole libraries paho documented retaining (codes "boiler") warmer
unfolding payload_of message_of parse_value show_scalar parse_int format_int decimal as_payload
warmer-HaveTexts = ((codes "70", refl), tt)
