-- ===== src/Nbe/Response.antt =====
-- nbe/response_frame.go: the response frame, written by the boiler and read by the client.
pub mod Keys
pub mod RoundTrip
pub mod Failure
use boiler_mate.Prelude.{ℕ, String, Bytes, ◌≡◌, length, List, []}
use boiler_mate.Prelude.Int.{ℤ, pos, negsuc, to_int8, to_int16, to_uint8}
use boiler_mate.Go.Map.{Map}
use boiler_mate.Nbe.Types.{Runtime, Function, unknown_function, Value}
use boiler_mate.Nbe.Action.{
  Error, invalid, Outcome, ok, err, panic, Action, return, and_then, ◌>>=◌, ◌>>◌,
}
use boiler_mate.Nbe.Helpers.{
  app_id_size, controller_id_size, function_size, seq_no_size, status_size, payload_len_size,
  start_marker, end_marker, read_string_full, read_bytes_full, read_ascii_int64_full,
  validate_marker, write_string, write_byte, write_ascii_int, write_raw_bytes,
}
use boiler_mate.Nbe.Payload.{serialize_payload, parse_payload}

pub record NbeResponse (F : Type 0) : Type 0 where
  pub app_id : Bytes
  pub controller_id : Bytes
  pub function : Function
  pub seq_no : ℤ
  pub status : ℕ
  pub payload : Map Bytes (Value F)

-- `if x, err = m; err != nil { d } else { f(x) }`.
abbrev recover : ℤ → (ℤ → ℤ) → Outcome ℤ → Outcome ℤ
recover d f (ok x) = ok (f x)
recover d f (err e) = ok d
recover d f panic = panic

abbrev pub or_default : ℤ → (ℤ → ℤ) → Action ℤ → Action ℤ
or_default d f m s = (recover d f (m s).0, (m s).1)

-- `fmt.Errorf("invalid …: %w", err)` round an error.
abbrev wrap {ℓ} : {A : Type ℓ} → String → Outcome A → Outcome A
wrap name (ok x) = ok x
wrap name (err e) = err (invalid name e)
wrap name panic = panic

abbrev pub or_invalid : {A : Type 0} → String → Action A → Action A
or_invalid name m s = (wrap name (m s).0, (m s).1)

module _ {F : Type 0} (runtime : Runtime F) where
  unfoldable pub pack : NbeResponse F → Action (Unit {0})
  pack frame = do
    write_string frame.app_id app_id_size "AppID"
    write_string frame.controller_id controller_id_size "ControllerID"
    write_byte start_marker "start marker"
    write_ascii_int frame.function function_size "Function"
    write_ascii_int frame.seq_no seq_no_size "SeqNo"
    write_ascii_int (pos frame.status) status_size "Status"
    let payload_str = serialize_payload runtime frame.payload
    write_ascii_int (pos (length payload_str)) payload_len_size "payload length"
    write_raw_bytes payload_str "payload"
    write_byte end_marker "end marker"

  -- The frame that a caller sees where no error is returned.
  unfoldable pub unpack : Action (NbeResponse F)
  unpack = do
    app_id ← read_string_full app_id_size "AppID"
    controller_id ← read_string_full controller_id_size "ControllerID"
    validate_marker start_marker "start marker"
    function ← or_default unknown_function to_int16 (read_ascii_int64_full function_size "Function")
    seq_no ← or_default (negsuc 0) to_int8 (read_ascii_int64_full seq_no_size "SeqNo")
    status ← or_invalid "status" (read_ascii_int64_full status_size "Status")
    payload_len ←
        or_invalid "payload length" (read_ascii_int64_full payload_len_size "payload length")
    payload_bytes ← read_bytes_full payload_len "payload"
    validate_marker end_marker "end marker"
    return (record {
      app_id = app_id;
      controller_id = controller_id;
      function = function;
      seq_no = seq_no;
      status = to_uint8 status;
      payload = parse_payload runtime payload_bytes function;
    })
