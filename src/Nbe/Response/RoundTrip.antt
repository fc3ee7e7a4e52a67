-- ===== src/Nbe/Response/RoundTrip.antt =====
-- A response that is packed and unpacked again.
use boiler_mate.Prelude.{
  length-append, ◌+◌, bytes_eq, ℕ, ◌<◌, ◌≤◌, ◌≡◌, ap, false, [], ◌∷◌, ◌++◌, Bytes, arith, length,
  All, append_assoc, ◌==◌,
}
use boiler_mate.Prelude.Int.{pos, int_eq, to_int8_small, to_int16_small, to_uint8_small}
use boiler_mate.Go.Format.{
  length-format_int_0, format_int_0, pad_string, pad_with_full, length-pad_with, IsAscii,
}
use boiler_mate.Go.Map.{KeysNe}
use boiler_mate.Nbe.Types.{Runtime, get_setup_range_function}
use boiler_mate.Nbe.Action.{ok}
use boiler_mate.Nbe.Helpers.{app_id_size, controller_id_size, start_marker, end_marker, write_byte}
use boiler_mate.Nbe.Helpers.Fields.{
  read_string_full-append, read_bytes_full-append, read_ascii_int64_full-format,
  validate_marker-cons, write_string-pad, write_ascii_int-format,
}
use boiler_mate.Nbe.Payload.{serialize_payload, parse_payload}
use boiler_mate.Nbe.Payload.RoundTrip.{IsPlain, parse_payload-serialize_payload}
use boiler_mate.Nbe.Response.{NbeResponse, pack, unpack}

module _ {F : Type 0} (runtime : Runtime F) where
  -- The numbers fit their fields, and the names are ASCII and not too long.
  pub record Fits (function seq_no : ℕ) (r : NbeResponse F) : Type 0 where
    pub app_ascii : All IsAscii r.app_id
    pub app_short : length r.app_id ≤ app_id_size
    pub controller_ascii : All IsAscii r.controller_id
    pub controller_short : length r.controller_id ≤ controller_id_size
    pub function_is : r.function ≡ pos function
    pub function_two : function < 100
    pub seq_no_is : r.seq_no ≡ pos seq_no
    pub seq_no_two : seq_no < 100
    pub status_one : r.status < 10
    pub payload_three : length (serialize_payload runtime r.payload) < 1000

  -- The frame's bytes in front of what follows them.
  abbrev pub image : ℕ → ℕ → NbeResponse F → Bytes → Bytes
  image function seq_no r rest =
      let payload_str = serialize_payload runtime r.payload in
      pad_string app_id_size r.app_id
      ++ (pad_string controller_id_size r.controller_id
          ++ (start_marker
              ∷ (format_int_0 2 (pos function)
                  ++ (format_int_0 2 (pos seq_no)
                      ++ (format_int_0 1 (pos r.status)
                          ++ (format_int_0 3 (pos (length payload_str))
                              ++ (payload_str ++ (end_marker ∷ rest))))))))

  -- The frame as the reader sees it: with padded names, and with the payload parsed.
  abbrev pub received : NbeResponse F → NbeResponse F
  received r = record r {
    app_id = pad_string app_id_size r.app_id;
    controller_id = pad_string controller_id_size r.controller_id;
    payload = parse_payload runtime (serialize_payload runtime r.payload) r.function;
  }

  module _ {function seq_no : ℕ} {r : NbeResponse F} (fits : Fits function seq_no r) where
    pub pack-image : pack runtime r [] ≡ (ok tt, image function seq_no r [])
    unfolding pack write_byte
    pack-image =
        rw
          (
            fits.function_is,
            fits.seq_no_is,
            write_string-pad r.app_id app_id_size "AppID" _ fits.app_ascii fits.app_short,
            write_string-pad r.controller_id controller_id_size "ControllerID" _
                fits.controller_ascii fits.controller_short,
            write_ascii_int-format 1 function "Function" _ fits.function_two,
            write_ascii_int-format 1 seq_no "SeqNo" _ fits.seq_no_two,
            write_ascii_int-format 0 r.status "Status" _ fits.status_one,
            write_ascii_int-format 2 (length (serialize_payload runtime r.payload)) "payload length"
                _ fits.payload_three,
          )
          (simp append_assoc)

    pub unpack-image :
        (rest : Bytes) → unpack runtime (image function seq_no r rest) ≡ (ok (received r), rest)
    unfolding unpack
    unpack-image rest =
        rw
          (
            read_string_full-append app_id_size (pad_string app_id_size r.app_id) _ "AppID"
                (length-pad_with b' ' app_id_size r.app_id fits.app_ascii fits.app_short),
            read_string_full-append controller_id_size
                (pad_string controller_id_size r.controller_id) _ "ControllerID"
                (length-pad_with b' ' controller_id_size r.controller_id fits.controller_ascii
                  fits.controller_short),
            validate_marker-cons start_marker _ "start marker",
            read_ascii_int64_full-format 1 function _ "Function" fits.function_two (omega arith),
            read_ascii_int64_full-format 1 seq_no _ "SeqNo" fits.seq_no_two (omega arith),
            read_ascii_int64_full-format 0 r.status _ "Status" fits.status_one (omega arith),
            read_ascii_int64_full-format 2 (length (serialize_payload runtime r.payload)) _
                "payload length" fits.payload_three (omega arith),
            read_bytes_full-append (serialize_payload runtime r.payload) _ "payload",
            validate_marker-cons end_marker _ "end marker",
          )
          (rw (
            to_int16_small function (omega (arith, fits.function_two)),
            to_int8_small seq_no (omega (arith, fits.seq_no_two)),
            to_uint8_small r.status (omega (arith, fits.status_one)),
            ← fits.function_is,
            ← fits.seq_no_is,
          ))

    pub image-append :
        (rest : Bytes) → image function seq_no r [] ++ rest ≡ image function seq_no r rest
    image-append rest = simp append_assoc

    pub length-image :
        length (image function seq_no r []) ≡ 28 + length (serialize_payload runtime r.payload)
    length-image =
        simp
          (
            length-append,
            length-pad_with b' ' app_id_size r.app_id fits.app_ascii fits.app_short,
            length-pad_with b' ' controller_id_size r.controller_id fits.controller_ascii
                fits.controller_short,
            length-format_int_0 1 function fits.function_two,
            length-format_int_0 1 seq_no fits.seq_no_two,
            length-format_int_0 0 r.status fits.status_one,
            length-format_int_0 2 (length (serialize_payload runtime r.payload)) fits.payload_three,
          )
          (omega arith)

    received-eq :
        length r.app_id ≡ app_id_size
        → length r.controller_id ≡ controller_id_size
        → (r.function == get_setup_range_function) ≡ false
        → All (IsPlain runtime) r.payload
        → KeysNe r.payload
        → received r ≡ r
    received-eq app controller other plain different =
        let app_same = pad_with_full b' ' app_id_size r.app_id fits.app_ascii app in
        let controller_same =
          pad_with_full b' ' controller_id_size r.controller_id fits.controller_ascii controller in
        let payload_same =
          parse_payload-serialize_payload runtime r.function r.payload (rw fits.function_is) other
            plain different in
        λ i. record r {
          app_id = app_same i;
          controller_id = controller_same i;
          payload = payload_same i;
        }

    -- A response whose names fill their fields, whose numbers fit theirs, and whose payload has
    -- plain entries with different keys, of a function other than GetSetupRangeFunction, is packed
    -- with no error, and unpacking the bytes with any rest behind them gives the response and
    -- leaves the rest.
    pub unpack-pack_response :
        length r.app_id ≡ app_id_size
        → length r.controller_id ≡ controller_id_size
        → (r.function == get_setup_range_function) ≡ false
        → All (IsPlain runtime) r.payload
        → KeysNe r.payload
        → (rest : Bytes)
        → ((pack runtime r []).0 ≡ ok tt)
          × (unpack runtime ((pack runtime r []).1 ++ rest) ≡ (ok r, rest))
    unpack-pack_response app controller other plain different rest = (
      ap (λ p. p.0) pack-image,
      rw (pack-image, image-append rest, unpack-image rest)
          (ap (λ q. (ok q, rest)) (received-eq app controller other plain different)),
    )
