-- ===== src/Nbe/Client/Connect/Plain.antt =====
-- nbe/nbe.go against nbe/mock_boiler.go: the answer to a request without a key.
use boiler_mate.Nbe.Client.Connect.Ready.{IsReady, Works, made, request-Fits, answer}
use boiler_mate.Prelude.{
  ◌%◌, ℕ, ◌+◌, ◌≤◌, ◌<◌, ◌≡◌, refl, ap, false, [], Bytes, arith, length, All, none, ◌==◌, bytes_eq,
}
use boiler_mate.Prelude.Int.{pos, int_eq}
use boiler_mate.Go.Map.{Map, KeysNe}
use boiler_mate.Nbe.Types.{Runtime, get_setup_range_function, unknown_function}
use boiler_mate.Nbe.Payload.{serialize_payload}
use boiler_mate.Nbe.Payload.RoundTrip.{reread, IsWritable}
use boiler_mate.Nbe.Request.{pin_field}
use boiler_mate.Nbe.Mock.{MockBoiler, process_request}
use boiler_mate.Nbe.Client.{get_request, Value, Nbe, Call}
use boiler_mate.Nbe.Client.Connect.Exchange.{Answered}
use boiler_mate.Nbe.Client.Connect.Boiler.{boiler_network}
use boiler_mate.Nbe.Request.RoundTrip.{pack-plain}
use boiler_mate.Nbe.Mock.Plain.{handle_request-pack_plain}

module _ {F : Type 0} (runtime : Runtime F) where
  module _ {C : Type 0} (call : Call) (cb : C) (nbe : Nbe C) (mb : MockBoiler F) {n seconds : ℕ}
      (ready : IsReady runtime nbe n) (works : Works runtime call seconds) (function : ℕ)
      (two : function < 100) (path : Bytes) (some_path : 1 ≤ length path)
      (short_path : length path < 1000) where
    -- A request whose payload is a path, to which the boiler answers with a payload that can be
    -- written, returns that payload as it is read from its text.
    pub send-answer :
        (mb' : MockBoiler F) (payload : Map Bytes (Value F))
        → process_request mb (record {
          app_id = nbe.app_id;
          controller_id = nbe.controller_id;
          rsa_key = none;
          function = pos function;
          seq_no = pos ((n + 1) % 100);
          pin_code = pin_field [];
          timestamp = pos seconds;
          payload = path;
        })
          ≡ (mb', made runtime nbe n (pos function) payload)
        → (pos function == unknown_function) ≡ false
        → (pos function == get_setup_range_function) ≡ false
        → All (IsWritable runtime) payload
        → KeysNe payload
        → length (serialize_payload runtime payload) ≤ 996
        → Answered runtime
            (boiler_network runtime)
            call
            (get_request nbe (pos function) path)
            cb
            nbe
            mb
            (record nbe { seq_no = pos ((n + 1) % 100); queue = [] })
            mb'
            (made runtime nbe n (pos function) (reread runtime payload))
    unfolding get_request
    send-answer mb' payload processed =
        let fits =
          request-Fits runtime call cb nbe mb ready works function two none [] path tt (omega arith)
            some_path short_path in
        answer runtime call cb nbe mb ready works function two none [] path tt (omega arith)
          some_path short_path mb' payload
          (ap (λ p. p.0) (pack-plain call.now fits call.random refl))
          (handle_request-pack_plain runtime mb call.now fits call.random refl) processed
