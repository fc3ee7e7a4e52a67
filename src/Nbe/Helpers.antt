-- ===== src/Nbe/Helpers.antt =====
-- nbe/frame_helpers.go: the readers and writers of a frame's fields.
pub mod Fields
use boiler_mate.Prelude.{
  ℕ, ◌≡◌, Bool, not, List, [], ◌∷◌, ◌++◌, String, Bytes, Option, none, some, arith, ltb, leb, eqb,
  if◌then◌else◌, length, take, drop,
}
use boiler_mate.Prelude.Int.{ℤ, pos, negsuc, to_int8, to_int16}
use boiler_mate.Go.Format.{pad_string, format_int_0}
use boiler_mate.Go.Parse.{parse_int, scan_int}
use boiler_mate.Go.Space.{trim_space}
use boiler_mate.Nbe.Types.{Function}
use boiler_mate.Nbe.Action.{
  failed_to_read, failed_to_parse, invalid_marker, too_large, ok, err, panic, Action, return, fail,
  ◌>>=◌, ◌>>◌, and_then,
}

abbrev pub app_id_size : ℕ
app_id_size = 12

abbrev pub controller_id_size : ℕ
controller_id_size = 6

abbrev pub function_size : ℕ
function_size = 2

abbrev pub seq_no_size : ℕ
seq_no_size = 2

abbrev pub pin_code_size : ℕ
pin_code_size = 10

abbrev pub timestamp_size : ℕ
timestamp_size = 10

abbrev pub extr_marker_size : ℕ
extr_marker_size = 4

abbrev pub payload_len_size : ℕ
payload_len_size = 3

abbrev pub status_size : ℕ
status_size = 1

abbrev pub start_marker : ℕ
start_marker = 0x02

abbrev pub end_marker : ℕ
end_marker = 0x04

-- `io.ReadFull` into `make([]byte, n)`, which `binary.Read` of a `*[]byte` comes to as well: the
-- `make` panics at a negative `n`, and a short input is used up.
unfoldable pub read_full : ℤ → String → Action Bytes
read_full (negsuc n) field_name s = (panic, s)
read_full (pos n) field_name s =
    if leb n (length s) then (ok (take n s), drop n s) else (err (failed_to_read field_name), [])

unfoldable pub read_bytes : ℤ → String → Action Bytes
unfolding read_full
read_bytes = read_full

unfoldable pub read_string : ℕ → String → Action Bytes
unfolding read_bytes
read_string n field_name = read_bytes (pos n) field_name

unfoldable pub read_bytes_full : ℤ → String → Action Bytes
unfolding read_full
read_bytes_full = read_full

unfoldable pub read_string_full : ℕ → String → Action Bytes
unfolding read_bytes_full
read_string_full n field_name = read_bytes_full (pos n) field_name

-- The result of a parse, as a step.
abbrev pub parsed_or : String → Option ℤ → Action ℤ
parsed_or field_name none = fail (failed_to_parse field_name)
parsed_or field_name (some value) = return value

unfoldable pub read_ascii_int : ℕ → String → Action ℤ
unfolding read_bytes
read_ascii_int n field_name = do
  buf ← read_bytes (pos n) field_name
  parsed_or field_name (scan_int buf)

unfoldable pub read_ascii_int8 : ℕ → String → Action ℤ
unfolding read_ascii_int
read_ascii_int8 n field_name = do value ← read_ascii_int n field_name; return (to_int8 value)

unfoldable pub read_ascii_int16 : ℕ → String → Action Function
unfolding read_ascii_int
read_ascii_int16 n field_name = do value ← read_ascii_int n field_name; return (to_int16 value)

unfoldable pub read_ascii_int64 : ℕ → String → Action ℤ
unfolding read_bytes
read_ascii_int64 n field_name = do
  buf ← read_bytes (pos n) field_name
  parsed_or field_name (scan_int buf)

unfoldable pub read_ascii_int64_full : ℕ → String → Action ℤ
unfolding read_bytes_full
read_ascii_int64_full n field_name = do
  buf ← read_bytes_full (pos n) field_name
  parsed_or field_name (parse_int 64 (trim_space buf))

-- `marker[0] != expected`, for the one byte that was read.
abbrev pub check_marker : ℕ → String → Bytes → Action (Unit {0})
check_marker expected field_name [] = λ s. (panic, s)
check_marker expected field_name (c ∷ _) =
    if eqb c expected then return tt else fail (invalid_marker field_name)

unfoldable pub read_and_validate_marker : ℕ → String → Action (Unit {0})
unfolding read_bytes
read_and_validate_marker expected field_name = do
  _ ← read_bytes (pos 1) "encryption"
  marker ← read_bytes (pos 1) field_name
  check_marker expected field_name marker

unfoldable pub validate_marker : ℕ → String → Action (Unit {0})
unfolding read_bytes_full
validate_marker expected field_name = do
  marker ← read_bytes_full (pos 1) field_name
  check_marker expected field_name marker

-- `binary.Write` of bytes to a `bytes.Buffer`, which does not fail.
unfoldable pub write_raw_bytes : Bytes → String → Action (Unit {0})
write_raw_bytes bytes field_name s = (ok tt, s ++ bytes)

unfoldable pub write_string : Bytes → ℕ → String → Action (Unit {0})
unfolding write_raw_bytes
write_string s size field_name =
    let formatted = pad_string size s in
    write_raw_bytes (if ltb size (length formatted) then take size formatted else formatted)
      field_name

unfoldable pub write_byte : ℕ → String → Action (Unit {0})
unfolding write_raw_bytes
write_byte b field_name = write_raw_bytes (b ∷ []) field_name

unfoldable pub write_ascii_int : ℤ → ℕ → String → Action (Unit {0})
unfolding write_raw_bytes
write_ascii_int value size field_name =
    let formatted = format_int_0 size value in
    if ltb size (length formatted)
    then fail (too_large field_name)
    else write_raw_bytes formatted field_name
