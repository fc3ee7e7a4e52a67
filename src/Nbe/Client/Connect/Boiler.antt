-- ===== src/Nbe/Client/Connect/Boiler.antt =====
-- nbe/nbe.go against nbe/mock_boiler.go: a client that connects to the simulated boiler.
use boiler_mate.Prelude.{
  ℕ, ◌≤◌, ◌≡◌, ◌∙◌, ap, sym, true, [], Bytes, arith, length, none, some, Option, bytes_eq,
}
use boiler_mate.Prelude.Int.{int_eq}
use boiler_mate.Go.Map.{insert, delete}
use boiler_mate.Nbe.Types.{Runtime}
use boiler_mate.Nbe.Action.{Outcome, ok, err, panic}
use boiler_mate.Nbe.Payload.{serialize_payload}
use boiler_mate.Nbe.Request.{NbeRequest}
use boiler_mate.Nbe.Request.RoundTrip.{received}
use boiler_mate.Nbe.Response
use boiler_mate.Nbe.Request
use boiler_mate.Nbe.Response.{NbeResponse}
use boiler_mate.Nbe.Response.RoundTrip.{
  Fits, image, received as response_received, pack-image, unpack-image, image-append, length-image,
}
use boiler_mate.Nbe.Mock.{MockBoiler, handle_request, process_request, send as mock_send}
use boiler_mate.Nbe.Mock.Plain.{send-pack}
use boiler_mate.Nbe.Client.{pos, Nbe, Call, next_seq}
use boiler_mate.Nbe.Client.Connect.{buffer_of}
use boiler_mate.Nbe.Client.Connect.Exchange.{
  Answered, numbered, packet_of, send-Answered, buffer_of-whole,
}

module _ {F : Type 0} (runtime : Runtime F) where
  -- What the simulated boiler sends back for a packet; after a panic nothing comes back.
  abbrev sent_back : MockBoiler F × Outcome (Option Bytes) → MockBoiler F × Option Bytes
  sent_back (mb, ok answer) = (mb, answer)
  sent_back (mb, err e) = (mb, none)
  sent_back (mb, panic) = (mb, none)

  -- The simulated boiler as the network: its state, and what it sends back for a packet, which
  -- reaches its buffer whole.
  unfoldable pub boiler_network : Bytes → MockBoiler F → MockBoiler F × Option Bytes
  boiler_network packet mb = sent_back (handle_request runtime mb packet)

  -- When the simulated boiler handles the packet as the request itself is processed, and that
  -- gives a response that fits, the call ends with that response, read again from its bytes.
  pub send-boiler :
      {C : Type 0} (call : Call) (request : NbeRequest) (cb : C) (nbe : Nbe C)
      (mb mb' : MockBoiler F) (response : NbeResponse F) {m function' : ℕ}
      → next_seq nbe.seq_no ≡ pos m
      → (Request.pack call.now call.random (numbered request nbe) []).0 ≡ ok tt
      → call.resolves ≡ true
      → call.written ≡ true
      → handle_request runtime mb (Request.pack call.now call.random (numbered request nbe) []).1
        ≡ mock_send runtime (process_request mb (received call.now (numbered request nbe)))
      → process_request mb (received call.now (numbered request nbe)) ≡ (mb', response)
      → Fits runtime function' m response
      → length (serialize_payload runtime response.payload) ≤ 996
      → Answered runtime boiler_network call request cb nbe mb
          (record nbe {
            seq_no = next_seq nbe.seq_no;
            queue = delete (next_seq nbe.seq_no) (insert (next_seq nbe.seq_no) cb nbe.queue);
          })
          mb'
          (response_received runtime response)
  unfolding boiler_network
  send-boiler call request cb nbe mb mb' response {m = m} {function' = function'} numbered_is
        is_packed resolves written handled processed answer short =
      let bytes = image runtime function' m response [] in
      let answered : boiler_network
            (packet_of call request cb nbe numbered_is is_packed resolves written) mb
          ≡ (mb', some bytes) =
        ap sent_back (
          handled
          ∙ ap (mock_send runtime) processed
          ∙ send-pack runtime (mb', response) bytes (pack-image runtime answer)) in
      let (rest, whole) = buffer_of-whole bytes (omega (arith, length-image runtime answer)) in
      let read : Response.unpack runtime (buffer_of bytes)
          ≡ (ok (response_received runtime response), rest) =
        rw (whole, image-append runtime answer rest) (unpack-image runtime answer rest) in
      send-Answered call request cb nbe numbered_is is_packed resolves written runtime
        boiler_network mb mb' bytes rest (response_received runtime response) answered read
        (answer.seq_no_is ∙ sym numbered_is)
