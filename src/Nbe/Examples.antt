-- ===== src/Nbe/Examples.antt =====
-- Tests of the package nbe, and its theorems at concrete frames.
use boiler_mate.Go.Space.{trim_space}
use boiler_mate.Go.Parse.{parse_int}
use boiler_mate.Prelude.{
  ℕ, ◌≡◌, ◌≢◌, refl, true, [], ◌∷◌, ◌++◌, Bytes, codes, arith, length, bytes_eq, if◌then◌else◌,
  ◌==◌, leb,
}
use boiler_mate.Prelude.Int.{pos, negsuc, int_eq}
use boiler_mate.Go.Format.{format_int_0}
use boiler_mate.Nbe.Types.{text, scalar, get_setup_function}
use boiler_mate.Nbe.Action.{ok, panic}
use boiler_mate.Nbe.Payload.{serialize_payload, parse_payload}
use boiler_mate.Nbe.Payload.RoundTrip.{parse_payload-serialize_payload}
use boiler_mate.Nbe.Response
use boiler_mate.Nbe.Response.{NbeResponse}
use boiler_mate.Nbe.Response.RoundTrip.{unpack-pack_response}
use boiler_mate.Nbe.Response.Failure.{
  IsFrame, head, function_of, seq_no_of, unpack-head, unpack-head-panic,
}
use boiler_mate.Nbe.Request
use boiler_mate.Nbe.Request.RoundTrip.{received, unpack-pack_request}
use boiler_mate.Nbe.Request.Encryption.{pack-panic}
use boiler_mate.Nbe.Mock.{handle_request, process_request, send}
use boiler_mate.Nbe.Mock.Decryption.{handle_request-pack}
use boiler_mate.Nbe.Client.{next_seq, send_async}
use boiler_mate.Nbe.Client.Sequence.{IsQueued, send_all, send_all-next_seq-ne, send_async-IsQueued}
use boiler_mate.Nbe.Fixtures.{
  answer_frame-Fits, answer_frame-IsPlain, ask_frame-Fits, set_frame-Fits, whole, answer_frame,
  ask_frame, set_frame, public, pair, sevens, sevens-IsRandom, boiler, client, call,
}

answer_example :
    ((Response.pack whole answer_frame []).0 ≡ ok tt)
    × (Response.unpack whole ((Response.pack whole answer_frame []).1 ++ codes "rest")
        ≡ (ok answer_frame, codes "rest"))
answer_example =
    unpack-pack_response whole answer_frame-Fits refl refl refl answer_frame-IsPlain
      ((refl, tt), (tt, tt)) (codes "rest")

parse_payload-serialize_payload_example :
    parse_payload whole (serialize_payload whole answer_frame.payload) get_setup_function
    ≡ answer_frame.payload
parse_payload-serialize_payload_example =
    parse_payload-serialize_payload whole get_setup_function answer_frame.payload refl refl
      answer_frame-IsPlain ((refl, tt), (tt, tt))

ask_example :
    ((Request.pack (pos 1700000000) sevens ask_frame []).0 ≡ ok tt)
    × (Request.unpack ((Request.pack (pos 1700000000) sevens ask_frame []).1 ++ codes "rest")
        ≡ (ok (received (pos 1700000000) ask_frame), codes "rest"))
ask_example = unpack-pack_request (pos 1700000000) ask_frame-Fits sevens refl (codes "rest")

-- A set request of fourteen bytes is encrypted and answered.
handle_request-pack_example :
    handle_request whole boiler (Request.pack (pos 1700000000) sevens set_frame []).1
    ≡ send whole (process_request boiler (received (pos 1700000000) set_frame))
handle_request-pack_example =
    handle_request-pack whole boiler (pos 1700000000) set_frame-Fits pair sevens-IsRandom refl
      (omega arith) (omega arith)

pack-panic_example :
    (Request.pack (pos 1700000000) sevens set_frame []).0
    ≡ (if leb (length set_frame.payload) 31 then ok tt else panic)
pack-panic_example = pack-panic (pos 1700000000) set_frame-Fits sevens public refl

failed-IsFrame : IsFrame whole (codes "ABCDEFGHIJKL") (codes "MNOPQR") (codes "??") (codes "--") 1
failed-IsFrame = record {
  app_full = refl;
  controller_full = refl;
  function_full = refl;
  seq_no_full = refl;
  status_one = omega arith;
}

abbrev error_bytes : Bytes
error_bytes = head whole (codes "ABCDEFGHIJKL") (codes "MNOPQR") (codes "??") (codes "--") 1 (
    format_int_0 3 (pos (length (codes "wrong pin")))
    ++ (codes "wrong pin" ++ (0x04 ∷ codes "rest")))

abbrev error_frame : NbeResponse ℕ
error_frame = record {
  app_id = codes "ABCDEFGHIJKL";
  controller_id = codes "MNOPQR";
  function = function_of whole (codes "??");
  seq_no = seq_no_of whole (codes "--");
  status = 1;
  payload = parse_payload whole (codes "wrong pin") (function_of whole (codes "??"));
}

-- An error packet of the controller.
unpack-head_example : Response.unpack whole error_bytes ≡ (ok error_frame, codes "rest")
unpack-head_example =
    unpack-head whole failed-IsFrame (codes "wrong pin") (codes "rest") (omega arith)

error_unpacked : Response.unpack whole error_bytes ≡ (ok error_frame, codes "rest")
error_unpacked = unpack-head whole failed-IsFrame (codes "wrong pin") (codes "rest") (omega arith)

unpack-head-panic_example :
    (Response.unpack whole (
      head whole
        (codes "ABCDEFGHIJKL")
        (codes "MNOPQR")
        (codes "??")
        (codes "--")
        1
        (format_int_0 3 (negsuc 6) ++ codes "rest"))).0
    ≡ panic
unpack-head-panic_example = unpack-head-panic whole failed-IsFrame 6 (codes "rest") (omega arith)

-- The error packet of the example carries its text, under the number -1.
error_packet :
    (error_frame.seq_no ≡ negsuc 0)
    × (error_frame.payload ≡ (codes "error", scalar (text (codes "wrong pin"))) ∷ [])
unfolding parse_payload parse_int trim_space
error_packet = (refl, refl)

error_number : (error_frame.seq_no == negsuc 0) ≡ true
unfolding parse_int trim_space
error_number = refl

send_all-next_seq-ne_example :
    next_seq (send_all ((call, ask_frame, 5) ∷ (call, set_frame, 6) ∷ []) client).seq_no
    ≢ next_seq client.seq_no
send_all-next_seq-ne_example =
    send_all-next_seq-ne ((call, ask_frame, 5) ∷ (call, set_frame, 6) ∷ []) client 6 (omega arith)
      refl (omega arith) (omega arith)

send_async-IsQueued_example :
    IsQueued (next_seq client.seq_no) 5 client.queue (send_async call ask_frame 5 client)
send_async-IsQueued_example = send_async-IsQueued call ask_frame 5 client
