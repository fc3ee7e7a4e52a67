-- ===== src/Nbe/Response/Keys.antt =====
-- nbe/response_frame.go: what holds of every response that is read.
use boiler_mate.Prelude.{Bytes, bytes_eq}
use boiler_mate.Prelude.Int.{negsuc, to_int8, to_int16}
use boiler_mate.Go.Map.{KeysNe}
use boiler_mate.Nbe.Types.{Runtime, unknown_function}
use boiler_mate.Nbe.Action.{Outcome, ok, err, panic, Action, and_then, ◌>>=◌}
use boiler_mate.Nbe.Helpers.{
  app_id_size, controller_id_size, function_size, seq_no_size, status_size, payload_len_size,
  start_marker, end_marker, read_string_full, read_bytes_full, read_ascii_int64_full,
  validate_marker,
}
use boiler_mate.Nbe.Payload.Keys.{parse_payload-KeysNe}
use boiler_mate.Nbe.Response.{NbeResponse, or_default, or_invalid, unpack}

-- A property of the value, where there is one.
abbrev pub Holding : {A : Type 0} → (A → Type 0) → Outcome A → Type 0
Holding P (ok a) = P a
Holding P (err e) = Unit {0}
Holding P panic = Unit {0}

-- Whatever the buffer, a value that an action gives has the property.
abbrev Gives : {A : Type 0} → (A → Type 0) → Action A → Type 0
Gives P m = (s : Bytes) → Holding P (m s).0

-- A response whose payload has no key twice.
abbrev pub KeyedOnce : {F : Type 0} → NbeResponse F → Type 0
KeyedOnce response = KeysNe response.payload

module _ {A B : Type 0} (P : B → Type 0) where
  and_then-Holding :
      (o : Outcome A) (s : Bytes) (f : A → Action B)
      → ((a : A) → Gives P (f a))
      → Holding P (and_then o s f).0
  and_then-Holding (ok a) s f gives = gives a s
  and_then-Holding (err e) s f gives = tt
  and_then-Holding panic s f gives = tt

  bind-Gives : (m : Action A) (f : A → Action B) → ((a : A) → Gives P (f a)) → Gives P (m >>= f)
  bind-Gives m f gives s = and_then-Holding (m s).0 (m s).1 f gives

module _ {F : Type 0} (runtime : Runtime F) where
  -- The payload of a response that is read has no key twice.
  pub unpack-KeysNe : (buffer : Bytes) → Holding KeyedOnce (unpack runtime buffer).0
  unfolding unpack
  unpack-KeysNe = bind-Gives KeyedOnce (read_string_full app_id_size "AppID") _ (λ app_id.
      bind-Gives KeyedOnce (read_string_full controller_id_size "ControllerID") _ (λ controller_id.
        bind-Gives KeyedOnce (validate_marker start_marker "start marker") _ (λ start.
          bind-Gives KeyedOnce
            (or_default unknown_function to_int16 (read_ascii_int64_full function_size "Function"))
            _
            (λ function.
              bind-Gives KeyedOnce
                (or_default (negsuc 0) to_int8 (read_ascii_int64_full seq_no_size "SeqNo")) _
                (λ seq_no.
                  bind-Gives KeyedOnce
                    (or_invalid "status" (read_ascii_int64_full status_size "Status")) _
                    (λ status.
                      bind-Gives KeyedOnce
                        (or_invalid "payload length"
                          (read_ascii_int64_full payload_len_size "payload length"))
                        _
                        (λ payload_len.
                          bind-Gives KeyedOnce (read_bytes_full payload_len "payload") _
                            (λ payload_bytes.
                              bind-Gives KeyedOnce (validate_marker end_marker "end marker") _
                                (λ end s.
                                  parse_payload-KeysNe runtime payload_bytes function)))))))))
