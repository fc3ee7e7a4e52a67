-- ===== src/Nbe/Client/Connect/Command.antt =====
-- nbe/nbe.go against nbe/mock_boiler.go: a set request of a connected client.
use boiler_mate.Prelude.{
  ℕ, ◌+◌, ◌%◌, ◌≤◌, ◌≡◌, refl, ◌∙◌, [], ◌∷◌, ◌++◌, Bytes, arith, length, All, some, le→leb,
  bytes_eq,
}
use boiler_mate.Prelude.Int.{pos, int_eq}
use boiler_mate.Go.BigInt.{IsByte}
use boiler_mate.Go.Format.{IsAscii}
use boiler_mate.Go.Split.{Lacks, split_two-part}
use boiler_mate.Nbe.Types.{Runtime}
use boiler_mate.Prelude.{length-append}
use boiler_mate.Go.Split.{join}
use boiler_mate.Nbe.Payload.{serialize_payload, show_scalar}
use boiler_mate.Nbe.Payload.RoundTrip.{IsWritable, reread}
use boiler_mate.Nbe.Request.{PublicKey}
use boiler_mate.Nbe.Request.Encryption.{pack-panic}
use boiler_mate.Nbe.Mock.{MockBoiler, status_ok, set_setup, set_data, process_request}
use boiler_mate.Nbe.Mock.Decryption.{IsKeyPair, IsRandom, handle_request-pack}
use boiler_mate.Nbe.Client.{Nbe, Call, set_request}
use boiler_mate.Nbe.Client.Connect.Boiler.{boiler_network}
use boiler_mate.Nbe.Client.Connect.Exchange.{Answered}
use boiler_mate.Nbe.Client.Connect.Ready.{IsReady, Works, made, request-Fits, answer}

module _ {F C : Type 0} (runtime : Runtime F) (call : Call) (cb : C) (nbe : Nbe C)
    (mb : MockBoiler F) {n seconds : ℕ} (ready : IsReady runtime nbe n)
    (works : Works runtime call seconds) {key : PublicKey} (keys : IsKeyPair key mb.rsa_private_key)
    (random : IsRandom call.random) (keyed : nbe.rsa_key ≡ some key)
    (pin_ascii : All IsAscii nbe.pin_code) (pin_short : length nbe.pin_code ≤ 10) where
  -- A set request of at most 31 bytes sets the path, and the client is told so.
  pub set-answer :
      (path value : Bytes)
      → Lacks b'=' path
      → All IsByte (path ++ (b'=' ∷ value))
      → length (path ++ (b'=' ∷ value)) ≤ 31
      → Answered runtime
          (boiler_network runtime)
          call
          (set_request nbe path value)
          cb
          nbe
          mb
          (record nbe { seq_no = pos ((n + 1) % 100); queue = [] })
          (record mb { settings = set_data path value mb.settings })
          (made runtime nbe n (pos 2) (reread runtime status_ok))
  unfolding set_request process_request serialize_payload show_scalar join
  set-answer path value plain bytes short =
      let payload = path ++ (b'=' ∷ value) in
      let long : 1 ≤ length payload = omega (arith, length-append path (b'=' ∷ value)) in
      let fits =
        request-Fits runtime call cb nbe mb ready works 2 (omega arith) nbe.rsa_key nbe.pin_code
          payload pin_ascii pin_short long (omega (arith, short)) in
      let status : All (IsWritable runtime) status_ok = ((ground arith, ground arith), tt) in
      answer runtime call cb nbe mb ready works 2 (omega arith) nbe.rsa_key nbe.pin_code payload
        pin_ascii pin_short long (omega (arith, short))
        (record mb { settings = set_data path value mb.settings }) status_ok
        (pack-panic call.now fits call.random key keyed
          ∙ rw (le→leb (length payload) 31 short) refl)
        (handle_request-pack runtime mb call.now fits keys random keyed bytes short)
        (rw (set_setup, split_two-part b'=' path value plain) refl) refl refl status (tt, tt)
        (omega arith)
