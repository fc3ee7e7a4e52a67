-- ===== src/Nbe/Client/Connect/Ready.antt =====
-- nbe/nbe.go against nbe/mock_boiler.go: the answer
-- to a request of a client that is connected or about to be.
use boiler_mate.Nbe.Client.Sequence.{next_seq-pos}
use boiler_mate.Prelude.{
  ◌%◌, ℕ, ◌+◌, ◌≤◌, ◌<◌, ◌^◌, ◌≡◌, refl, ◌∙◌, ap, true, false, [], Bytes, arith, length, All, none,
  ◌==◌, bytes_eq,
}
use boiler_mate.Prelude.Int.{pos, int_eq}
use boiler_mate.Go.Format.{pad_with_full, IsAscii}
use boiler_mate.Go.Map.{beq_refl, Map, insert, delete, KeysNe}
use boiler_mate.Nbe.Types.{Runtime, Function, get_setup_range_function, unknown_function}
use boiler_mate.Nbe.Action.{ok}
use boiler_mate.Nbe.Payload.{serialize_payload}
use boiler_mate.Nbe.Payload.RoundTrip.{reread, parse_payload-reread, IsWritable}
use boiler_mate.Nbe.Request.{pin_field}
use boiler_mate.Nbe.Request.RoundTrip.{Fits as RequestFits, received}
use boiler_mate.Nbe.Response.{NbeResponse}
use boiler_mate.Nbe.Response.RoundTrip.{Fits, received as response_received}
use boiler_mate.Nbe.Mock.{MockBoiler, process_request}
use boiler_mate.Nbe.Client.{some, next_seq, Value, Nbe, Call}
use boiler_mate.Nbe.Client.Connect.Exchange.{Answered, numbered}
use boiler_mate.Nbe.Client.Connect.Boiler.{boiler_network, send-boiler}
use boiler_mate.Nbe.Action.{ok}
use boiler_mate.Nbe.Request
use boiler_mate.Nbe.Request.{PublicKey, zero_time, NbeRequest}
use boiler_mate.Nbe.Mock.{handle_request, send as mock_send}
use boiler_mate.Prelude.{Option}

module _ {F : Type 0} (runtime : Runtime F) where
  module _ {C : Type 0} (nbe : Nbe C) (n : ℕ) where
    -- A client as NewNBE makes it, whose last number was `n`.
    pub record IsReady : Type 0 where
      pub app_ascii : All IsAscii nbe.app_id
      pub app_full : length nbe.app_id ≡ 12
      pub controller_ascii : All IsAscii nbe.controller_id
      pub controller_full : length nbe.controller_id ≡ 6
      pub seq_no_is : nbe.seq_no ≡ pos n
      pub seq_no_two : n < 100
      pub queue_empty : nbe.queue ≡ []

  -- A call during which the network works.
  abbrev pub Works : Call → ℕ → Type 0
  Works call seconds =
      (call.now ≡ pos seconds)
      × (seconds < 10 ^ 10)
      × (call.resolves ≡ true)
      × (call.written ≡ true)

  -- The response that the simulated boiler makes for a request of the client.
  abbrev pub made : {C : Type 0} → Nbe C → ℕ → Function → Map Bytes (Value F) → NbeResponse F
  made nbe n function payload = record {
    app_id = nbe.app_id;
    controller_id = nbe.controller_id;
    function = function;
    seq_no = pos ((n + 1) % 100);
    status = 0;
    payload = payload;
  }

  -- A request of the client.
  abbrev pub request_of : {C : Type 0} → Nbe C → ℕ → Option PublicKey → Bytes → Bytes → NbeRequest
  request_of nbe function key pin payload = record {
    app_id = nbe.app_id;
    controller_id = nbe.controller_id;
    rsa_key = key;
    function = pos function;
    seq_no = pos 0;
    pin_code = pin;
    timestamp = zero_time;
    payload = payload;
  }

  module _ {C : Type 0} (call : Call) (cb : C) (nbe : Nbe C) (mb : MockBoiler F) {n seconds : ℕ}
      (ready : IsReady nbe n) (works : Works call seconds) (function : ℕ) (two : function < 100)
      (key : Option PublicKey) (pin path : Bytes) (pin_ascii : All IsAscii pin)
      (pin_short : length pin ≤ 10) (some_path : 1 ≤ length path)
      (short_path : length path < 1000) where
    pub request-Fits :
        RequestFits call.now function
          ((n + 1) % 100)
          seconds
          (numbered (request_of nbe function key pin path) nbe)
    request-Fits = record {
      app_ascii = ready.app_ascii;
      app_some = omega (arith, ready.app_full);
      app_short = omega (arith, ready.app_full);
      controller_ascii = ready.controller_ascii;
      controller_some = omega (arith, ready.controller_full);
      controller_short = omega (arith, ready.controller_full);
      function_is = refl;
      function_two = two;
      seq_no_is = rw ready.seq_no_is (next_seq-pos n ready.seq_no_two);
      seq_no_two = omega arith;
      pin_ascii = pin_ascii;
      pin_short = pin_short;
      stamp_is = works.0;
      stamp_ten = works.1;
      payload_some = some_path;
      payload_three = short_path;
    }

    request-received :
        received call.now (numbered (request_of nbe function key pin path) nbe) ≡ record {
          app_id = nbe.app_id;
          controller_id = nbe.controller_id;
          rsa_key = none;
          function = pos function;
          seq_no = pos ((n + 1) % 100);
          pin_code = pin_field pin;
          timestamp = pos seconds;
          payload = path;
        }
    request-received = rw (
      works.0,
      ready.seq_no_is,
      next_seq-pos n ready.seq_no_two,
      pad_with_full b' ' 12 nbe.app_id ready.app_ascii ready.app_full,
      pad_with_full b'0' 6 nbe.controller_id ready.controller_ascii ready.controller_full,
    )

    made-Fits :
        (payload : Map Bytes (Value F))
        → length (serialize_payload runtime payload) ≤ 996
        → Fits runtime function ((n + 1) % 100) (made nbe n (pos function) payload)
    made-Fits payload short = record {
      app_ascii = ready.app_ascii;
      app_short = omega (arith, ready.app_full);
      controller_ascii = ready.controller_ascii;
      controller_short = omega (arith, ready.controller_full);
      function_is = refl;
      function_two = two;
      seq_no_is = refl;
      seq_no_two = omega arith;
      status_one = omega arith;
      payload_three = omega arith;
    }

    made-received :
        (payload : Map Bytes (Value F))
        → (pos function == unknown_function) ≡ false
        → (pos function == get_setup_range_function) ≡ false
        → All (IsWritable runtime) payload
        → KeysNe payload
        → response_received runtime (made nbe n (pos function) payload)
          ≡ made nbe n (pos function) (reread runtime payload)
    made-received payload known other writable distinct = rw (
      pad_with_full b' ' 12 nbe.app_id ready.app_ascii ready.app_full,
      pad_with_full b' ' 6 nbe.controller_id ready.controller_ascii ready.controller_full,
      parse_payload-reread runtime (pos function) payload known other writable distinct,
    )

    -- The state of the client behind a call that is answered.
    abbrev after : Nbe C
    after = record nbe { seq_no = pos ((n + 1) % 100); queue = [] }

    delete-insert : delete (pos ((n + 1) % 100)) (insert (pos ((n + 1) % 100)) cb nbe.queue) ≡ []
    unfolding delete insert
    delete-insert = rw (ready.queue_empty, insert, beq_refl (pos ((n + 1) % 100)))

    -- When the simulated boiler handles the packet as the request itself is processed, and answers
    -- with a payload that can be written, the call ends with that payload as it is read from its
    -- text.
    pub answer :
        (mb' : MockBoiler F) (payload : Map Bytes (Value F))
        → (Request.pack call.now call.random
            (numbered (request_of nbe function key pin path) nbe)
            []).0
          ≡ ok tt
        → handle_request runtime mb
            (Request.pack call.now call.random
              (numbered (request_of nbe function key pin path) nbe)
              []).1
          ≡ mock_send runtime (
              process_request mb
                (received call.now (numbered (request_of nbe function key pin path) nbe)))
        → process_request mb (record {
          app_id = nbe.app_id;
          controller_id = nbe.controller_id;
          rsa_key = none;
          function = pos function;
          seq_no = pos ((n + 1) % 100);
          pin_code = pin_field pin;
          timestamp = pos seconds;
          payload = path;
        })
          ≡ (mb', made nbe n (pos function) payload)
        → (pos function == unknown_function) ≡ false
        → (pos function == get_setup_range_function) ≡ false
        → All (IsWritable runtime) payload
        → KeysNe payload
        → length (serialize_payload runtime payload) ≤ 996
        → Answered runtime
            (boiler_network runtime)
            call
            (request_of nbe function key pin path)
            cb
            nbe
            mb
            after
            mb'
            (made nbe n (pos function) (reread runtime payload))
    answer mb' payload is_packed handled processed known other writable distinct short =
        let request = request_of nbe function key pin path in
        let number : next_seq nbe.seq_no ≡ pos ((n + 1) % 100) =
          rw ready.seq_no_is (next_seq-pos n ready.seq_no_two) in
        let (sent, exchanged) =
          send-boiler runtime call request cb nbe mb mb' (made nbe n (pos function) payload) number
            is_packed works.2 works.3 handled (ap (process_request mb) request-received ∙ processed)
            (made-Fits payload short) short in
        let settled : ◌≡◌ {A = Nbe C × NbeResponse F}
            (
              record nbe {
                seq_no = next_seq nbe.seq_no;
                queue = delete (next_seq nbe.seq_no) (insert (next_seq nbe.seq_no) cb nbe.queue);
              },
              response_received runtime (made nbe n (pos function) payload),
            )
            (after, made nbe n (pos function) (reread runtime payload)) =
          rw (
            ready.seq_no_is,
            next_seq-pos n ready.seq_no_two,
            delete-insert,
            made-received payload known other writable distinct,
          ) in
        (
          sent ∙ ap (λ p. (p.0, mb', ok p.1)) settled,
          exchanged ∙ ap (λ p. (p.0, mb', ok (some (cb, p.1)))) settled,
        )
