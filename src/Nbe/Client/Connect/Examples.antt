-- ===== src/Nbe/Client/Connect/Examples.antt =====
-- Examples and tests of a client that connects to the simulated boiler.
use boiler_mate.Prelude.{◌≡◌, refl, [], ◌∷◌, codes, arith, some}
use boiler_mate.Prelude.Int.{pos}
use boiler_mate.Go.Format.{format_int}
use boiler_mate.Nbe.Types.{text}
use boiler_mate.Nbe.Payload.{show_scalar, parse_value}
use boiler_mate.Go.Decimal.{decimal}
use boiler_mate.Go.Decimal.{decimal}
use boiler_mate.Go.Format.{format_int}
use boiler_mate.Nbe.Payload.{show_scalar, parse_value}
use boiler_mate.Nbe.Client.Connect.{rsa_key_from_base64}
use boiler_mate.Nbe.Action.{ok}
use boiler_mate.Nbe.Mock.{get_value, MockBoiler}
use boiler_mate.Go.Parse.{parse_int}
use boiler_mate.Go.Map.{lookup}
use boiler_mate.Nbe.Client.{random_string, ℕ, Nbe}
use boiler_mate.Nbe.Client.Connect.{rsa_key_from_base64, KeyFormat, rsa_key, new_nbe, connect}
use boiler_mate.Nbe.Client.Connect.Boiler.{boiler_network}
use boiler_mate.Nbe.Client.Connect.Ready.{IsReady}
use boiler_mate.Nbe.Client.Connect.Discovered.{Serves, connect-boiler}
use boiler_mate.Prelude.{List}
use boiler_mate.Nbe.Fixtures.{whole, public, private, call}

-- A base64 text that stands for itself, and bytes that are all the same key.
abbrev format : KeyFormat
format = record { decode_string = λ s. some s; parse_pkix_public_key = λ b. some (rsa_key public) }

abbrev zeros : MockBoiler ℕ
zeros = record {
  serial = codes "00000";
  settings = (codes "misc", (codes "rsa_key", text (codes "a2V5")) ∷ []) ∷ [];
  rsa_private_key = private;
  rsa_key_base64 = codes "a2V5";
}

abbrev app_draws : List ℕ
app_draws = 0 ∷ 1 ∷ 2 ∷ 3 ∷ 4 ∷ 5 ∷ 6 ∷ 7 ∷ 8 ∷ 9 ∷ 10 ∷ 11 ∷ []

abbrev controller_draws : List ℕ
controller_draws = 12 ∷ 13 ∷ 14 ∷ 15 ∷ 16 ∷ 17 ∷ []

abbrev fresh : Nbe ℕ
fresh =
    new_nbe app_draws controller_draws (codes "00000") (codes "0123456789") (codes "192.168.1.100")

fresh-IsReady : IsReady whole fresh 0
unfolding new_nbe random_string
fresh-IsReady = record {
  app_ascii = ground arith;
  app_full = refl;
  controller_ascii = ground arith;
  controller_full = refl;
  seq_no_is = refl;
  seq_no_two = omega arith;
  queue_empty = refl;
}

zeros-Serves : Serves whole zeros
unfolding get_value lookup parse_int
zeros-Serves = record {
  serial_plain = ground arith;
  key_plain = ground arith;
  short = omega arith;
  key_set = refl;
  key_text = (refl, refl);
}

connect-boiler_example : connect whole (boiler_network whole) format call call 1 2 fresh zeros ≡ (
  record fresh { serial = codes "0"; seq_no = pos 2; rsa_key = some public; queue = [] },
  zeros,
  ok tt,
)
unfolding new_nbe show_scalar parse_value parse_int format_int decimal rsa_key_from_base64
connect-boiler_example =
    connect-boiler whole format call call 1 2 fresh zeros public fresh-IsReady refl
      (refl, omega arith, refl, refl) (refl, omega arith, refl, refl) zeros-Serves refl
