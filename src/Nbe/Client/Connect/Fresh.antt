-- ===== src/Nbe/Client/Connect/Fresh.antt =====
-- nbe/nbe.go against nbe/mock_boiler.go: NewNBE and NewMockBoiler.
use boiler_mate.Prelude.{
  ℕ, ◌+◌, ◌≤◌, ◌<◌, ◌≡◌, refl, ◌∙◌, ap, List, [], ◌∷◌, Bytes, arith, length, All, some, bytes_eq,
}
use boiler_mate.Prelude.Int.{pos}
use boiler_mate.Go.Format.{IsAscii}
use boiler_mate.Go.Map.{lookup}
use boiler_mate.Go.Split.{Lacks}
use boiler_mate.Nbe.Types.{Runtime, text}
use boiler_mate.Nbe.Action.{ok}
use boiler_mate.Nbe.Payload.{show_scalar}
use boiler_mate.Nbe.Payload.RoundTrip.{Reads, parse_value-show_scalar}
use boiler_mate.Nbe.Request.{PublicKey}
use boiler_mate.Nbe.Mock.{PrivateKey, get_value}
use boiler_mate.Nbe.Mock.Initial.{initialize_data, new_mock_boiler}
use boiler_mate.Nbe.Client.{Call, random_string}
use boiler_mate.Nbe.Client.Connect.{KeyFormat, rsa_key_from_base64, new_nbe, connect}
use boiler_mate.Nbe.Client.Connect.Boiler.{boiler_network}
use boiler_mate.Nbe.Client.Connect.Ready.{IsReady, Works}
use boiler_mate.Nbe.Client.Connect.Discovered.{Serves, connect-boiler}

length-random_string : (draws : List ℕ) → length (random_string draws) ≡ length draws
unfolding random_string
length-random_string [] = refl
length-random_string (n ∷ draws) = omega (arith, length-random_string draws)

random_string-IsAscii :
    (draws : List ℕ) → All (λ n. n < 25) draws → All IsAscii (random_string draws)
unfolding random_string
random_string-IsAscii [] h = tt
random_string-IsAscii (n ∷ draws) h = (omega (arith, h.0), random_string-IsAscii draws h.1)

module _ {F : Type 0} (runtime : Runtime F) (tenths : ℕ → F) where
  pub new_nbe-IsReady :
      {C : Type 0} (app_draws controller_draws : List ℕ) (username password hostname : Bytes)
      → All (λ n. n < 25) app_draws
      → length app_draws ≡ 12
      → All (λ n. n < 25) controller_draws
      → length controller_draws ≡ 6
      → IsReady runtime {C = C} (new_nbe app_draws controller_draws username password hostname) 0
  unfolding new_nbe
  new_nbe-IsReady app_draws controller_draws username password hostname app twelve controller six =
      record {
        app_ascii = random_string-IsAscii app_draws app;
        app_full = length-random_string app_draws ∙ twelve;
        controller_ascii = random_string-IsAscii controller_draws controller;
        controller_full = length-random_string controller_draws ∙ six;
        seq_no_is = refl;
        seq_no_two = omega arith;
        queue_empty = refl;
      }

  new_mock_boiler-Serves :
      (rsa_private_key : PrivateKey) (rsa_key_base64 serial : Bytes)
      → Lacks b';' serial
      → Lacks b';' rsa_key_base64
      → length serial + length rsa_key_base64 ≤ 900
      → Reads runtime (text rsa_key_base64)
      → Serves runtime (new_mock_boiler tenths rsa_private_key rsa_key_base64 serial)
  unfolding new_mock_boiler initialize_data get_value lookup
  new_mock_boiler-Serves rsa_private_key rsa_key_base64 serial plain key_plain short read = record {
    serial_plain = plain;
    key_plain = key_plain;
    short = short;
    key_set = refl;
    key_text = read;
  }

  -- NewNBE connects to a new simulated boiler over a network that works, whatever names it draws
  -- and whatever the URL holds: the client has the boiler's key and its serial. Serial and key are
  -- no numbers, have no semicolon and together at most 900 bytes, and the key is parsed.
  pub connect-new :
      {C : Type 0} (format : KeyFormat) (call call' : Call) (cb cb' : C)
      (app_draws controller_draws : List ℕ) (username password hostname : Bytes)
      (rsa_private_key : PrivateKey) (rsa_key_base64 serial : Bytes) (key : PublicKey)
      {seconds seconds' : ℕ}
      → All (λ n. n < 25) app_draws
      → length app_draws ≡ 12
      → All (λ n. n < 25) controller_draws
      → length controller_draws ≡ 6
      → Works runtime call seconds
      → Works runtime call' seconds'
      → Lacks b';' serial
      → Reads runtime (text serial)
      → Lacks b';' rsa_key_base64
      → Reads runtime (text rsa_key_base64)
      → length serial + length rsa_key_base64 ≤ 900
      → rsa_key_from_base64 format rsa_key_base64 ≡ ok key
      → let boiler = new_mock_boiler tenths rsa_private_key rsa_key_base64 serial in
        let client = new_nbe app_draws controller_draws username password hostname in
        connect runtime (boiler_network runtime) format call call' cb cb' client boiler ≡ (
          record client { serial = serial; seq_no = pos 2; rsa_key = some key; queue = [] },
          boiler,
          ok tt,
        )
  unfolding new_mock_boiler new_nbe show_scalar
  connect-new format call call' cb cb' app_draws controller_draws username password hostname
        rsa_private_key rsa_key_base64 serial key app twelve controller six works works' plain read
        key_plain key_read short parsed =
      let boiler = new_mock_boiler tenths rsa_private_key rsa_key_base64 serial in
      let client = new_nbe app_draws controller_draws username password hostname in
      connect-boiler runtime format call call' cb cb' client boiler key
        (new_nbe-IsReady app_draws controller_draws username password hostname app twelve controller
          six)
        refl works works'
        (new_mock_boiler-Serves rsa_private_key rsa_key_base64 serial plain key_plain short
          key_read)
        parsed
      ∙ ap
          (λ name. (
            record client { serial = name; seq_no = pos 2; rsa_key = some key; queue = [] },
            boiler,
            ok tt,
          ))
          (ap (show_scalar runtime) (parse_value-show_scalar runtime (text serial) read))
