-- ===== src/Nbe/Request/RoundTrip.antt =====
-- A request that is packed and unpacked again.
use boiler_mate.Go.Format.{length-format_int_0}
use boiler_mate.Prelude.{length-append, ◌+◌}
use boiler_mate.Nbe.Request.{require, validate, pack}
use boiler_mate.Nbe.Helpers.{write_raw_bytes}
use boiler_mate.Nbe.Action.{return, Action}
use boiler_mate.Prelude.{String, ◌∙◌, ap, refl, arith}
use boiler_mate.Prelude.{
  ℕ, ◌+◌, ◌<◌, ◌≤◌, ◌^◌, ◌≡◌, refl, ◌∙◌, ap, [], ◌∷◌, ◌++◌, Bytes, arith, codes, none, length, All,
  append_assoc,
}
use boiler_mate.Prelude.Int.{ℤ, pos}
use boiler_mate.Go.Format.{pad_string, pad_string_0, length-pad_with, IsAscii}
use boiler_mate.Nbe.Action.{ok, Action}
use boiler_mate.Nbe.Helpers.{start_marker, end_marker, write_raw_bytes}
use boiler_mate.Nbe.Helpers.Fields.{
  read_string-append, read_bytes-append, read_ascii_int8-format, read_ascii_int16-format,
  read_ascii_int64-format, read_ascii_int-format, read_and_validate_marker-cons,
}
use boiler_mate.Nbe.Request.{NbeRequest, stamp, pin_field, body, pack, unpack, validate}

-- The numbers fit their fields, the texts are ASCII and not too long, and none is empty that
-- `Validate` wants.
pub record Fits (now : ℤ) (function seq_no seconds : ℕ) (r : NbeRequest) : Type 0 where
  pub app_ascii : All IsAscii r.app_id
  pub app_some : 1 ≤ length r.app_id
  pub app_short : length r.app_id ≤ 12
  pub controller_ascii : All IsAscii r.controller_id
  pub controller_some : 1 ≤ length r.controller_id
  pub controller_short : length r.controller_id ≤ 6
  pub function_is : r.function ≡ pos function
  pub function_two : function < 100
  pub seq_no_is : r.seq_no ≡ pos seq_no
  pub seq_no_two : seq_no < 100
  pub pin_ascii : All IsAscii r.pin_code
  pub pin_short : length r.pin_code ≤ 10
  pub stamp_is : stamp now r.timestamp ≡ pos seconds
  pub stamp_ten : seconds < 10 ^ 10
  pub payload_some : 1 ≤ length r.payload
  pub payload_three : length r.payload < 1000

-- The frame as the reader sees it: padded texts, the time that was stamped, and no key.
abbrev pub received : ℤ → NbeRequest → NbeRequest
received now r = record r {
  app_id = pad_string 12 r.app_id;
  controller_id = pad_string_0 6 r.controller_id;
  rsa_key = none;
  pin_code = pin_field r.pin_code;
  timestamp = stamp now r.timestamp;
}

length-pin_field : (pin : Bytes) → All IsAscii pin → length pin ≤ 10 → length (pin_field pin) ≡ 10
length-pin_field [] h l = refl
length-pin_field (c ∷ s) h l = length-pad_with b' ' 10 (c ∷ s) h l

require-some :
    (name : String) (xs : Bytes) (next : Action (Unit {0}))
    → 1 ≤ length xs
    → require name xs next ≡ next
require-some name [] next h = absurd (omega arith)
require-some name (x ∷ xs) next h = refl

module _ (now : ℤ) {function seq_no seconds : ℕ} {r : NbeRequest}
    (fits : Fits now function seq_no seconds r) where
  -- The reader looks at no encryption marker: any byte may stand there.
  pub unpack-body :
      (mark : ℕ) (rest : Bytes)
      → unpack (
          pad_string 12 r.app_id
          ++ (pad_string_0 6 r.controller_id ++ (mark ∷ (body now r ++ rest))))
        ≡ (ok (received now r), rest)
  unfolding unpack body
  unpack-body mark rest =
      rw (fits.function_is, fits.seq_no_is, fits.stamp_is)
        (simp append_assoc (
          rw (
            read_string-append 12 (pad_string 12 r.app_id) _ "AppID"
                (length-pad_with b' ' 12 r.app_id fits.app_ascii fits.app_short),
            read_string-append 6 (pad_string_0 6 r.controller_id) _ "ControllerID" (
                length-pad_with b'0' 6 r.controller_id fits.controller_ascii fits.controller_short),
            read_and_validate_marker-cons mark start_marker _ "start marker",
            read_ascii_int16-format function _ "Function" fits.function_two,
            read_ascii_int8-format seq_no _ "SeqNo" fits.seq_no_two,
            read_string-append 10 (pin_field r.pin_code) _ "PinCode"
                (length-pin_field r.pin_code fits.pin_ascii fits.pin_short),
            read_ascii_int64-format 9 seconds _ "Timestamp" fits.stamp_ten (omega arith),
            read_bytes-append 4 (codes "extr") _ "extr marker" refl,
            read_ascii_int-format 2 (length r.payload) _ "payload length" fits.payload_three
                (omega arith),
            read_bytes-append (length r.payload) r.payload _ "payload" refl,
            read_bytes-append 1 (end_marker ∷ []) _ "end marker" refl,
          )))

  pub validate-ok : validate r ≡ return tt
  unfolding validate
  validate-ok =
      require-some "AppID" r.app_id _ fits.app_some
      ∙ require-some "ControllerID" r.controller_id _ fits.controller_some
      ∙ require-some "Payload" r.payload _ fits.payload_some

  -- The bytes of a frame that is not encrypted.
  pub pack-plain :
      (random : ℕ → Bytes)
      → r.rsa_key ≡ none
      → pack now random r []
        ≡ (ok tt, pad_string 12 r.app_id ++ (pad_string_0 6 r.controller_id ++ (b' ' ∷ body now r)))
  unfolding pack write_raw_bytes
  pack-plain random plain = rw (validate-ok, plain) (simp append_assoc)

  -- A request without a key whose fields fit is packed with no error, and unpacking the bytes with
  -- any rest behind them gives the request, with its texts padded to their fields and its time
  -- stamped, and leaves the rest.
  pub unpack-pack_request :
      (random : ℕ → Bytes)
      → r.rsa_key ≡ none
      → (rest : Bytes)
      → ((pack now random r []).0 ≡ ok tt)
        × (unpack ((pack now random r []).1 ++ rest) ≡ (ok (received now r), rest))
  unpack-pack_request random plain rest = (
    ap (λ p. p.0) (pack-plain random plain),
    rw (pack-plain random plain) (simp append_assoc (unpack-body b' ' rest)),
  )

  -- The body is 33 bytes longer than its payload.
  pub length-body : length (body now r) ≡ 33 + length r.payload
  unfolding body
  length-body =
      rw (fits.function_is, fits.seq_no_is, fits.stamp_is)
        (simp
          (
            length-append,
            length-format_int_0 1 function fits.function_two,
            length-format_int_0 1 seq_no fits.seq_no_two,
            length-pin_field r.pin_code fits.pin_ascii fits.pin_short,
            length-format_int_0 9 seconds fits.stamp_ten,
            length-format_int_0 2 (length r.payload) fits.payload_three,
          )
          (omega arith))
