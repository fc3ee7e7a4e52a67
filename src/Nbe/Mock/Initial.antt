-- ===== src/Nbe/Mock/Initial.antt =====
-- nbe/mock_boiler.go: a new simulated boiler with its first data. A float constant is given in
-- tenths.
use boiler_mate.Prelude.{ℕ, [], ◌∷◌, Bytes, codes}
use boiler_mate.Prelude.Int.{pos}
use boiler_mate.Nbe.Types.{int64, rounded, text}
use boiler_mate.Nbe.Mock.{MockBoiler, PrivateKey, Table}

module _ {F : Type 0} (tenths : ℕ → F) where
  -- `initializeData`, with the text of the key; the state text is `PowerStates[5]`.
  unfoldable pub initialize_data : Bytes → Table F
  initialize_data rsa_key_base64 =
      (codes "misc", (codes "rsa_key", text rsa_key_base64) ∷ [])
      ∷ (
        codes "boiler",
        (codes "temp", rounded (tenths 650))
            ∷ (codes "diff_under", rounded (tenths 50))
            ∷ (codes "diff_over", rounded (tenths 150))
            ∷ [],
      )
      ∷ (codes "hot_water", (codes "diff_under", rounded (tenths 50)) ∷ [])
      ∷ (
        codes "regulation",
        (codes "boiler_power_min", int64 (pos 30))
            ∷ (codes "boiler_power_max", int64 (pos 100))
            ∷ [],
      )
      ∷ (codes "oxygen", (codes "start_calibrate", int64 (pos 0)) ∷ [])
      ∷ (codes "hopper", (codes "content", rounded (tenths 1500)) ∷ [])
      ∷ (
        codes "operating",
        (codes "boiler_temp", rounded (tenths 625))
            ∷ (codes "smoke_temp", rounded (tenths 1253))
            ∷ (codes "oxygen", rounded (tenths 125))
            ∷ (codes "power_kw", rounded (tenths 152))
            ∷ (codes "power_pct", rounded (tenths 750))
            ∷ (codes "photo_level", rounded (tenths 880))
            ∷ (codes "state", int64 (pos 5))
            ∷ (codes "state_text", text (codes "Power"))
            ∷ [],
      )
      ∷ (
        codes "advanced",
        (codes "fan_speed", int64 (pos 2500)) ∷ (codes "auger_cycles", int64 (pos 120)) ∷ [],
      )
      ∷ []

  -- `NewMockBoiler`, on the key that is generated and its text in base64.
  unfoldable pub new_mock_boiler : PrivateKey → Bytes → Bytes → MockBoiler F
  unfolding initialize_data
  new_mock_boiler rsa_private_key rsa_key_base64 serial = record {
    serial = serial;
    settings = initialize_data rsa_key_base64;
    rsa_private_key = rsa_private_key;
    rsa_key_base64 = rsa_key_base64;
  }
