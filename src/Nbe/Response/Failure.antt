-- ===== src/Nbe/Response/Failure.antt =====
-- The responses that `Unpack` does not take the usual way: the controller's error packets, whose
-- function and sequence number are no numbers, and a negative payload length.
use boiler_mate.Nbe.Response.{parse_payload, unpack, recover}
use boiler_mate.Prelude.{
  arith, refl, inr, inl, Option-cases, some, Option, String, ℕ, suc, ◌<◌, ◌^◌, ◌≡◌, ◌∷◌, ◌++◌,
  Bytes, none, length, bytes_eq,
}
use boiler_mate.Prelude.Int.{to_uint8_small, to_int16, to_int8, ℤ, pos, negsuc, int_eq}
use boiler_mate.Go.Format.{format_int_0}
use boiler_mate.Go.Parse.{
  parse_int, parse_int-format_int_0-minus, format_int_0-minus-IsPrint, length-format_int_0-minus,
}
use boiler_mate.Go.Space.{trim_space, trim_space-print}
use boiler_mate.Nbe.Types.{unknown_function, Runtime}
use boiler_mate.Nbe.Action.{Outcome, panic, ok, err, failed_to_parse}
use boiler_mate.Nbe.Helpers.{
  read_bytes_full, end_marker, seq_no_size, function_size, controller_id_size, app_id_size,
  start_marker, read_ascii_int64_full,
}
use boiler_mate.Nbe.Helpers.Fields.{
  read_bytes_full-append, read_ascii_int64_full-format, validate_marker-cons,
  read_string_full-append, read_full-append,
}

read_ascii_int64_full-minus :
    (k n : ℕ) (rest : Bytes) (name : String)
    → suc n < 10 ^ suc k
    → n < 2 ^ 63
    → read_ascii_int64_full (suc (suc k)) name (format_int_0 (suc (suc k)) (negsuc n) ++ rest)
      ≡ (ok (negsuc n), rest)
unfolding read_ascii_int64_full
read_ascii_int64_full-minus k n rest name h fits =
    let field = format_int_0 (suc (suc k)) (negsuc n) in
    rw (
      read_full-append (suc (suc k)) field rest name (length-format_int_0-minus k n h),
      trim_space-print field (format_int_0-minus-IsPrint (suc (suc k)) n),
      parse_int-format_int_0-minus 64 (suc (suc k)) n fits,
    )

-- What a field comes to that is read with a default: its number, converted, or the default.
abbrev pub value_or : ℤ → (ℤ → ℤ) → Option ℤ → ℤ
value_or d f none = d
value_or d f (some z) = f z

-- The parse of a field, as an outcome.
abbrev outcome : String → Option ℤ → Outcome ℤ
outcome name none = err (failed_to_parse name)
outcome name (some z) = ok z

read_ascii_int64_full-field :
    (n : ℕ) (field rest : Bytes) (name : String)
    → length field ≡ n
    → read_ascii_int64_full n name (field ++ rest)
      ≡ (outcome name (parse_int 64 (trim_space field)), rest)
unfolding read_ascii_int64_full
read_ascii_int64_full-field n field rest name e =
    elim (Option-cases (parse_int 64 (trim_space field))) [
      | inl missing ↦ rw (read_full-append n field rest name e, missing)
      | inr (z, found) ↦ rw (read_full-append n field rest name e, found)
    ]

recover-outcome :
    (d : ℤ) (f : ℤ → ℤ) (name : String) (o : Option ℤ)
    → recover d f (outcome name o) ≡ ok (value_or d f o)
recover-outcome d f name none = refl
recover-outcome d f name (some z) = refl

module _ {F : Type 0} (runtime : Runtime F) where
  -- A frame of which only the widths of the names and of the first two numbers are known.
  pub record IsFrame (app controller function seq_no : Bytes) (status : ℕ) : Type 0 where
    pub app_full : length app ≡ app_id_size
    pub controller_full : length controller ≡ controller_id_size
    pub function_full : length function ≡ function_size
    pub seq_no_full : length seq_no ≡ seq_no_size
    pub status_one : status < 10

  -- Its bytes up to the payload's length, in front of what follows.
  abbrev pub head : Bytes → Bytes → Bytes → Bytes → ℕ → Bytes → Bytes
  head app controller function seq_no status rest =
      app
      ++ (controller
          ++ (start_marker ∷ (function ++ (seq_no ++ (format_int_0 1 (pos status) ++ rest)))))

  abbrev pub function_of : Bytes → ℤ
  function_of field = value_or unknown_function to_int16 (parse_int 64 (trim_space field))

  abbrev pub seq_no_of : Bytes → ℤ
  seq_no_of field = value_or (negsuc 0) to_int8 (parse_int 64 (trim_space field))

  module _ {app controller function seq_no : Bytes} {status : ℕ}
      (frame : IsFrame app controller function seq_no status) where
    -- Whatever two bytes stand for the function and for the sequence number, a response with names
    -- of the right width is read: a field that is no number becomes -1, and the payload is parsed
    -- for the function that results.
    pub unpack-head :
        (payload rest : Bytes)
        → length payload < 1000
        → unpack runtime (
            head app controller function seq_no status
              (format_int_0 3 (pos (length payload)) ++ (payload ++ (end_marker ∷ rest))))
          ≡ (
            ok (record {
              app_id = app;
              controller_id = controller;
              function = function_of function;
              seq_no = seq_no_of seq_no;
              status = status;
              payload = parse_payload runtime payload (function_of function);
            }),
            rest,
          )
    unfolding unpack
    unpack-head payload rest short = rw (
      read_string_full-append app_id_size app _ "AppID" frame.app_full,
      read_string_full-append controller_id_size controller _ "ControllerID" frame.controller_full,
      validate_marker-cons start_marker _ "start marker",
      read_ascii_int64_full-field 2 function _ "Function" frame.function_full,
      recover-outcome unknown_function to_int16 "Function" (parse_int 64 (trim_space function)),
      read_ascii_int64_full-field 2 seq_no _ "SeqNo" frame.seq_no_full,
      recover-outcome (negsuc 0) to_int8 "SeqNo" (parse_int 64 (trim_space seq_no)),
      read_ascii_int64_full-format 0 status _ "Status" frame.status_one (omega arith),
      read_ascii_int64_full-format 2 (length payload) _ "payload length" short (omega arith),
      read_bytes_full-append payload _ "payload",
      validate_marker-cons end_marker _ "end marker",
      to_uint8_small status (omega (arith, frame.status_one)),
    )

    -- A response with names of the right width, any two bytes for the function and for the sequence
    -- number, and a payload length that is a negative number of at most two digits panics: the
    -- length reaches make unchecked.
    pub unpack-head-panic :
        (n : ℕ) (rest : Bytes)
        → suc n < 100
        → (unpack runtime
            (head app controller function seq_no status (format_int_0 3 (negsuc n) ++ rest))).0
          ≡ panic
    unfolding unpack read_bytes_full
    unpack-head-panic n rest two = rw (
      read_string_full-append app_id_size app _ "AppID" frame.app_full,
      read_string_full-append controller_id_size controller _ "ControllerID" frame.controller_full,
      validate_marker-cons start_marker _ "start marker",
      read_ascii_int64_full-field 2 function _ "Function" frame.function_full,
      recover-outcome unknown_function to_int16 "Function" (parse_int 64 (trim_space function)),
      read_ascii_int64_full-field 2 seq_no _ "SeqNo" frame.seq_no_full,
      recover-outcome (negsuc 0) to_int8 "SeqNo" (parse_int 64 (trim_space seq_no)),
      read_ascii_int64_full-format 0 status _ "Status" frame.status_one (omega arith),
      read_ascii_int64_full-minus 1 n _ "payload length" two (omega arith),
    )
