-- ===== src/App/Setup/Silent.antt =====
-- cmd/boiler-mate/main.go: main where the boiler never answers.
use boiler_mate.Prelude.{[], ℕ, List, Bool, ◌≡◌, refl, Bytes, Option, some, none}
use boiler_mate.Config.{Config}
use boiler_mate.Nbe.Types.{Runtime}
use boiler_mate.Nbe.Action.{Outcome, ok, err, panic}
use boiler_mate.Nbe.Client.{Nbe, Call}
use boiler_mate.Nbe.Client.Connect.{KeyFormat}
use boiler_mate.Nbe.Client.Connect.Silent.{Fails, connect-Fails}
use boiler_mate.Mqtt.{Connection}
use boiler_mate.Mqtt.Options.{Files, ClientOptions}
use boiler_mate.App.Setup.{Url, panicked, with_boiler, with_address, set_up}

module _ {F S B D K V : Type 0} (runtime : Runtime F) (network : Bytes → S → S × Option Bytes)
    (format : KeyFormat) (files : Files K) (paho : Connection B D V)
    (dial : ClientOptions K → B × Bool) (parse : Bytes → Option Url) (handler : D) where
  with_boiler-panicked :
      (cfg : Config) (done : Nbe (Bytes × Bytes) × S × Outcome (Unit {0}))
      → Fails done.2
      → with_boiler runtime network format files paho dial parse handler cfg done ≡ panicked
  unfolding with_boiler
  with_boiler-panicked cfg (boiler, s, ok a) failed = absurd failed
  with_boiler-panicked cfg (boiler, s, err e) failed = refl
  with_boiler-panicked cfg (boiler, s, panic) failed = refl

  with_address-panicked :
      ((packet : Bytes) (s : S) → (network packet s).1 ≡ none)
      → (cfg : Config) (draws : (List ℕ × List ℕ) × (Call × Call)) (s : S) (url : Option Url)
      → with_address runtime network format files paho dial parse handler cfg draws s url ≡ panicked
  unfolding with_address
  with_address-panicked silent cfg draws s none = refl
  with_address-panicked silent cfg draws s (some url) =
      with_boiler-panicked cfg _
        (connect-Fails runtime network silent format draws.1.0 draws.1.1 ([], []) ([], []) _ s)

  -- When nothing comes back from the boiler, main ends with a panic before it connects to the
  -- broker, whatever its settings, what it draws and what the boiler's network was in.
  pub set_up-panicked :
      ((packet : Bytes) (s : S) → (network packet s).1 ≡ none)
      → (cfg : Config) (draws : (List ℕ × List ℕ) × (Call × Call)) (s : S)
      → set_up runtime network format files paho dial parse handler cfg draws s ≡ panicked
  unfolding set_up
  set_up-panicked silent cfg draws s =
      with_address-panicked silent cfg draws s (parse cfg.controller_url)
