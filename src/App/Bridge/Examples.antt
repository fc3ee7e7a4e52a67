-- ===== src/App/Bridge/Examples.antt =====
-- Examples of commands and rounds on the simulated boiler, over a broker that is a table.
use boiler_mate.Monitor.Published.Shown.{HaveTexts}
use boiler_mate.Go.Decimal.{decimal}
use boiler_mate.Go.Format.{format_int}
use boiler_mate.App.Bridge.Fixtures.{
  documented, warmer-HaveTexts, libraries, IsDisplayed, bridge, bridge-IsReady, bridge-IsShown,
  paho, prefix, retaining, warmer, warmer-Holds, warmer_bridge,
}
use boiler_mate.App.Bridge.Runs.{
  round-Publishes, Reach-poll, begin, polled_once, elsewhere, later, Reach-IsShown, empty-IsShown,
}
use boiler_mate.Monitor.Published.Order.{publish_response-order}
use boiler_mate.Go.Map.Unordered.{unordered, SameEntries}
use boiler_mate.Monitor.Round.Boiler.{entries_read}
use boiler_mate.App.Topics.{set_topic}
use boiler_mate.App.Bridge.Commands.{IsTopic, poll-IsShown, command-IsShown}
use boiler_mate.App.Bridge.{poll, command, Bridge}
use boiler_mate.Nbe.Action.{ok}
use boiler_mate.Monitor.Published.{message_of, publish_response}
use boiler_mate.Prelude.{ℕ, ◌≡◌, refl, [], ◌∷◌, Bytes, codes, some, arith, bytes_eq, bytes_beq_iff}
use boiler_mate.Prelude.Int.{pos, int_eq}
use boiler_mate.Go.Map.{Map, lookup}
use boiler_mate.Nbe.Types.{int64, Value, scalar}
use boiler_mate.Mqtt.{payload_of, under}
use boiler_mate.Monitor.{settings_response}
use boiler_mate.Monitor.Fixtures.{start}
use boiler_mate.Nbe.Fixtures.{whole, call, pair, sevens-IsRandom}
use boiler_mate.Nbe.Payload.{parse_value}

abbrev hotter : Map Bytes (Value ℕ)
hotter = (codes "temp", scalar (int64 (pos 80))) ∷ []

command-IsShown_example :
    (bridge' bridge'' : Bridge ℕ (Map Bytes Bytes) (Map Bytes Bytes) ℕ) × (command whole libraries
        paho
        (codes "boiler")
        call
        (set_topic prefix (codes "boiler") (codes "temp"))
        (codes "70")
        bridge
      ≡ ok bridge')
    × (poll whole libraries paho (codes "boiler") call bridge' ≡ ok bridge'')
    × (bridge''.client.prefix ≡ prefix)
    × IsTopic whole libraries paho documented retaining
        (codes "boiler")
        (codes "temp")
        (scalar (parse_value whole (codes "70")))
        bridge''
    × IsDisplayed bridge''
command-IsShown_example =
    command-IsShown whole libraries paho documented retaining (codes "boiler") call prefix
      (codes "temp") (codes "70") bridge bridge-IsReady (refl, omega arith, refl, refl) pair
      sevens-IsRandom refl (ground arith) (omega arith) (ground arith) (ground arith) (ground arith)
      (ground arith) refl (ground arith) (omega arith) call warmer (refl, omega arith, refl, refl)
      (refl, omega arith) warmer-Holds warmer-HaveTexts bridge-IsShown

-- The bridge as it starts, and after the boiler's own change and a round.
abbrev cold : Bridge ℕ (Map Bytes Bytes) (Map Bytes Bytes) ℕ
cold = record bridge { monitor = record start { cache = [] } }

abbrev changed_there : Bridge ℕ (Map Bytes Bytes) (Map Bytes Bytes) ℕ
changed_there = record cold { nbe = bridge.nbe; boiler = warmer_bridge.boiler }

Reach-poll_example :
    (b'' : Bridge ℕ (Map Bytes Bytes) (Map Bytes Bytes) ℕ) × (poll whole libraries paho
        (codes "boiler")
        call
        changed_there
      ≡ ok b'')
    × (b''.boiler ≡ warmer_bridge.boiler)
    × (b''.client.prefix ≡ prefix)
    × ((k : Bytes) (v : Value ℕ)
        → lookup k (entries_read whole warmer) ≡ some v
        → IsTopic whole libraries paho documented retaining (codes "boiler") k v b'')
Reach-poll_example =
    Reach-poll whole libraries paho documented retaining (codes "boiler") {b = cold}
      {b' = changed_there} (later begin (elsewhere bridge.nbe warmer_bridge.boiler)) tt refl call
      warmer bridge-IsReady (refl, omega arith, refl, refl) (refl, omega arith) warmer-Holds
      warmer-HaveTexts

abbrev both : Map Bytes (Value ℕ)
both = (codes "min", scalar (int64 (pos 5))) ∷ hotter

abbrev both_walked : Map Bytes (Value ℕ)
both_walked = (codes "temp", scalar (int64 (pos 80))) ∷ (codes "min", scalar (int64 (pos 5))) ∷ []

both-SameEntries : SameEntries both both_walked
unfolding lookup
both-SameEntries k = ground (arith, bytes_beq_iff (codes "min") k, bytes_beq_iff (codes "temp") k)

both-HaveTexts : HaveTexts whole libraries paho documented retaining (codes "boiler") both
unfolding payload_of message_of format_int decimal
both-HaveTexts = ((codes "5", refl), ((codes "80", refl), tt))

both_walked-HaveTexts :
    HaveTexts whole libraries paho documented retaining (codes "boiler") both_walked
unfolding payload_of message_of format_int decimal
both_walked-HaveTexts = ((codes "80", refl), ((codes "5", refl), tt))

publish_response-order_example :
    let done = publish_response libraries paho (codes "boiler") both (start, bridge.client) in
    let done' =
      publish_response libraries paho (codes "boiler") both_walked (start, bridge.client) in
    (unordered (settings_response libraries (codes "boiler") both start).1
      ≡ unordered (settings_response libraries (codes "boiler") both_walked start).1)
    × (unordered done.0.cache ≡ unordered done'.0.cache)
    × ((k : Bytes)
        → lookup (under (under done.1.prefix (codes "boiler")) k) done.1.connection
          ≡ lookup (under (under done'.1.prefix (codes "boiler")) k) done'.1.connection)
publish_response-order_example =
    publish_response-order whole libraries paho documented retaining (codes "boiler") both
      both_walked start bridge.client (ground arith) (ground arith) both-SameEntries both-HaveTexts
      both_walked-HaveTexts

changed_there-IsShown : IsDisplayed changed_there
changed_there-IsShown =
    empty-IsShown whole libraries paho documented retaining (codes "boiler") changed_there refl

round_there :
    (b : Bridge ℕ (Map Bytes Bytes) (Map Bytes Bytes) ℕ) × (poll whole libraries paho
        (codes "boiler")
        call
        changed_there
      ≡ ok b)
round_there =
    let done =
      poll-IsShown whole libraries paho documented retaining (codes "boiler") call changed_there
        warmer bridge-IsReady (refl, omega arith, refl, refl) (refl, omega arith) warmer-Holds
        warmer-HaveTexts changed_there-IsShown in
    (done.0, done.1)

Reach-IsShown_example : IsDisplayed round_there.0 × (round_there.0.client.prefix ≡ prefix)
Reach-IsShown_example =
    Reach-IsShown whole libraries paho documented retaining (codes "boiler") {b = cold}
      {b' = round_there.0}
      (later (later begin (elsewhere bridge.nbe warmer_bridge.boiler))
        (polled_once call round_there.1))
      (
        tt,
        round-Publishes whole libraries paho documented retaining (codes "boiler") call
            changed_there warmer bridge-IsReady (refl, omega arith, refl, refl) (refl, omega arith)
            warmer-Holds warmer-HaveTexts,
      )
      refl
