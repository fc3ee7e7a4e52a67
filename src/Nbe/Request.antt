-- ===== src/Nbe/Request.antt =====
-- nbe/request_frame.go: the request frame, written by the client and read by the boiler.
pub mod RoundTrip
pub mod Encryption
use boiler_mate.Prelude.{
  ℕ, ◌-◌, String, [], ◌∷◌, ◌++◌, Bytes, codes, Option, some, none, leb, if◌then◌else◌, length, ◌==◌,
}
use boiler_mate.Prelude.Int.{ℤ, pos, negsuc, int_eq}
use boiler_mate.Go.BigInt.{from_bytes, to_bytes, exp}
use boiler_mate.Go.Format.{pad_string, pad_string_0, format_int_0}
use boiler_mate.Nbe.Types.{Function}
use boiler_mate.Nbe.Action.{empty_field, panic, Action, return, fail, ◌>>=◌, ◌>>◌}
use boiler_mate.Nbe.Helpers.{
  app_id_size, controller_id_size, function_size, seq_no_size, pin_code_size, timestamp_size,
  extr_marker_size, payload_len_size, start_marker, read_string, read_bytes,
  read_and_validate_marker, read_ascii_int, read_ascii_int8, read_ascii_int16, read_ascii_int64,
  write_raw_bytes,
}

-- `rsa.PublicKey`.
pub record PublicKey : Type 0 where
  pub modulus : ℕ
  pub exponent : ℕ

-- `time.Time` by its seconds since 1970; nothing else of it is used.
pub record NbeRequest : Type 0 where
  pub app_id : Bytes
  pub controller_id : Bytes
  pub rsa_key : Option PublicKey
  pub function : Function
  pub seq_no : ℤ
  pub pin_code : Bytes
  pub timestamp : ℤ
  pub payload : Bytes

-- The zero `time.Time`, in the year 1.
abbrev pub zero_time : ℤ
zero_time = negsuc 62135596799

-- The first empty field, if there is one.
abbrev pub require : String → Bytes → Action (Unit {0}) → Action (Unit {0})
require name [] next = fail (empty_field name)
require name (_ ∷ _) next = next

unfoldable pub validate : NbeRequest → Action (Unit {0})
validate frame =
    require "AppID" frame.app_id
      (require "ControllerID" frame.controller_id (require "Payload" frame.payload (return tt)))

-- The timestamp that is written: `now` for a zero time.
abbrev pub stamp : ℤ → ℤ → ℤ
stamp now timestamp = if timestamp == zero_time then now else timestamp

abbrev pub pin_field : Bytes → Bytes
pin_field [] = codes "0000000000"
pin_field (c ∷ s) = pad_string pin_code_size (c ∷ s)

-- What `buf` holds before it is encrypted or copied.
unfoldable pub body : ℤ → NbeRequest → Bytes
body now frame =
    0x02
    ∷ (format_int_0 2 frame.function
        ++ (format_int_0 2 frame.seq_no
            ++ (pin_field frame.pin_code
                ++ (format_int_0 10 (stamp now frame.timestamp)
                    ++ (codes "extr"
                        ++ (format_int_0 3 (pos (length frame.payload))
                            ++ (frame.payload ++ (0x04 ∷ []))))))))

-- The number that stands for the body and its padding, encrypted.
unfoldable pub encrypt : PublicKey → Bytes → Bytes
encrypt key plain = to_bytes (exp (from_bytes plain) key.exponent key.modulus)

-- `make([]byte, 64 - buf.Len())` panics at a body of more than 64 bytes. `random k` is what
-- `rand.Read` puts in `k` bytes.
write_body : (ℕ → Bytes) → Option PublicKey → Bytes → Action (Unit {0})
unfolding write_raw_bytes
write_body random none buf = do write_raw_bytes (codes " ") "encryption"; write_raw_bytes buf "body"
write_body random (some key) buf =
    if leb (length buf) 64
    then (write_raw_bytes (codes "*") "encryption"
        >> write_raw_bytes (encrypt key (buf ++ random (64 - length buf))) "body")
    else (λ s. (panic, s))

unfoldable pub pack : ℤ → (ℕ → Bytes) → NbeRequest → Action (Unit {0})
unfolding write_body validate
pack now random frame = do
  validate frame
  write_raw_bytes (pad_string 12 frame.app_id) "AppID"
  write_raw_bytes (pad_string_0 6 frame.controller_id) "ControllerID"
  write_body random frame.rsa_key (body now frame)

-- The frame that a caller sees where no error is returned; a key is not read.
unfoldable pub unpack : Action NbeRequest
unpack = do
  app_id ← read_string app_id_size "AppID"
  controller_id ← read_string controller_id_size "ControllerID"
  read_and_validate_marker start_marker "start marker"
  function ← read_ascii_int16 function_size "Function"
  seq_no ← read_ascii_int8 seq_no_size "SeqNo"
  pin_code ← read_string pin_code_size "PinCode"
  ts ← read_ascii_int64 timestamp_size "Timestamp"
  _ ← read_bytes (pos extr_marker_size) "extr marker"
  payload_len ← read_ascii_int payload_len_size "payload length"
  payload ← read_bytes payload_len "payload"
  _ ← read_bytes (pos 1) "end marker"
  return (record {
    app_id = app_id;
    controller_id = controller_id;
    rsa_key = none;
    function = function;
    seq_no = seq_no;
    pin_code = pin_code;
    timestamp = ts;
    payload = payload;
  })
