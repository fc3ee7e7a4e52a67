-- ===== src/Nbe/Client/Connect/Discovered.antt =====
-- nbe/nbe.go against nbe/mock_boiler.go: a new client connects to the simulated boiler.
use boiler_mate.Go.Space.{cut_prefix}
use boiler_mate.Prelude.{
  ◌%◌, ℕ, ◌+◌, ◌≤◌, ◌≡◌, refl, ◌∙◌, ap, [], ◌∷◌, ◌++◌, Bytes, codes, arith, length, All, none, some,
  length-append, bytes_eq,
}
use boiler_mate.Prelude.Int.{pos, int_eq}
use boiler_mate.Go.Map.{Map, lookup, KeysNe}
use boiler_mate.Go.Split.{cut_suffix, join, Lacks}
use boiler_mate.Nbe.Types.{Runtime, text, scalar, get_setup_function}
use boiler_mate.Nbe.Action.{ok}
use boiler_mate.Nbe.Payload.{serialize_payload, parse_value, show_scalar, show_value}
use boiler_mate.Nbe.Payload.RoundTrip.{
  parse_value-show_scalar, IsKeyByte, reread, IsWritable, Reads,
}
use boiler_mate.Nbe.Request.{PublicKey}
use boiler_mate.Nbe.Mock.{
  whole_category, as_payload, one_entry, MockBoiler, process_request, get_value, get_data,
}
use boiler_mate.Nbe.Client.{Value, Nbe, Call}
use boiler_mate.Nbe.Client.Connect.{
  key_of, key_in, get, get_rsa_key, connect, discovery_request, KeyFormat, rsa_key_from_base64,
}
use boiler_mate.Nbe.Client.Connect.Boiler.{boiler_network}
use boiler_mate.Nbe.Mock.Settings.{get_data-get_value}
use boiler_mate.Nbe.Client.Connect.Ready.{IsReady, Works, made}
use boiler_mate.Nbe.Client.Connect.Plain.{send-answer}

module _ {F : Type 0} (runtime : Runtime F) where
  -- The simulated boiler's settings hold its key, and its names can be written.
  pub record Serves (mb : MockBoiler F) : Type 0 where
    pub serial_plain : Lacks b';' mb.serial
    pub key_plain : Lacks b';' mb.rsa_key_base64
    pub short : length mb.serial + length mb.rsa_key_base64 ≤ 900
    pub key_set :
        get_value (codes "misc") (codes "rsa_key") mb.settings ≡ some (text mb.rsa_key_base64)
    pub key_text : Reads runtime (text mb.rsa_key_base64)

  named : MockBoiler F → Map Bytes (Value F)
  named mb =
      (codes "serial", scalar (text mb.serial))
      ∷ (codes "rsa_key", scalar (text mb.rsa_key_base64))
      ∷ []

  serial_key : All (IsKeyByte runtime) (codes "serial")
  serial_key = ground arith

  rsa_key_key : All (IsKeyByte runtime) (codes "rsa_key")
  rsa_key_key = ground arith

  named-IsWritable : (mb : MockBoiler F) → Serves mb → All (IsWritable runtime) (named mb)
  unfolding named show_scalar
  named-IsWritable mb serves =
      ((serial_key, serves.serial_plain), ((rsa_key_key, serves.key_plain), tt))

  length-named :
      (mb : MockBoiler F) → Serves mb → length (serialize_payload runtime (named mb)) ≤ 996
  unfolding named serialize_payload join
  length-named mb serves = omega (
    arith,
    serves.short,
    length-append mb.serial (b';' ∷ (codes "rsa_key" ++ (b'=' ∷ mb.rsa_key_base64))),
  )

  named-KeysNe : (mb : MockBoiler F) → KeysNe (named mb)
  unfolding named
  named-KeysNe mb = ground arith

  key_entry : MockBoiler F → Map Bytes (Value F)
  key_entry mb = (codes "rsa_key", scalar (text mb.rsa_key_base64)) ∷ []

  key_data :
      (mb : MockBoiler F)
      → Serves mb
      → as_payload (get_data (codes "misc.rsa_key") mb.settings) ≡ key_entry mb
  unfolding one_entry as_payload key_entry whole_category cut_suffix cut_prefix
  key_data mb serves = ap as_payload (
      get_data-get_value (codes "misc") (codes "rsa_key") mb.settings (omega arith) refl
      ∙ ap (one_entry (codes "rsa_key")) serves.key_set)

  length-key_entry :
      (mb : MockBoiler F) → Serves mb → length (serialize_payload runtime (key_entry mb)) ≤ 996
  unfolding key_entry serialize_payload join
  length-key_entry mb serves = omega (arith, serves.short)

  -- A new client is given the simulated boiler's key.
  get_rsa_key-boiler :
      {C : Type 0} (format : KeyFormat) (call : Call) (cb : C) (nbe : Nbe C) (mb : MockBoiler F)
      (key : PublicKey) {n seconds : ℕ}
      → IsReady runtime nbe n
      → nbe.rsa_key ≡ none
      → Works runtime call seconds
      → Serves mb
      → rsa_key_from_base64 format mb.rsa_key_base64 ≡ ok key
      → get_rsa_key runtime (boiler_network runtime) format call cb nbe mb
        ≡ (record nbe { seq_no = pos ((n + 1) % 100); queue = [] }, mb, ok key)
  unfolding get_rsa_key get key_entry process_request lookup show_scalar key_in key_of
  get_rsa_key-boiler format call cb nbe mb key {n = n} {seconds = seconds} ready keyless works
        serves parsed =
      let done =
        get runtime (boiler_network runtime) call get_setup_function (codes "misc.rsa_key") cb nbe
          mb in
      let asked : done ≡ (
        record nbe { seq_no = pos ((n + 1) % 100); queue = [] },
        mb,
        ok (made runtime nbe n (pos 1) (reread runtime (key_entry mb))),
      ) =
        (send-answer runtime call cb nbe mb ready works 1 (omega arith) (codes "misc.rsa_key")
          (omega arith) (omega arith) mb (key_entry mb)
          (ap (λ p. (mb, made runtime nbe n (pos 1) p)) (key_data mb serves)) refl refl
          ((rsa_key_key, serves.key_plain), tt) (tt, tt) (length-key_entry mb serves)).0 in
      ap
        (λ k. elim k [
          | some key ↦ (nbe, mb, ok key)
          | none ↦ (done.0, done.1, key_in format done.2)
        ])
        keyless
      ∙ ap (λ d. (d.0, d.1, key_in format d.2)) asked
      ∙ ap
          (λ v. (
            record nbe { seq_no = pos ((n + 1) % 100); queue = [] },
            mb,
            key_of format (some (scalar v)),
          ))
          (parse_value-show_scalar runtime (text mb.rsa_key_base64) serves.key_text)
      ∙ ap (λ k. (record nbe { seq_no = pos ((n + 1) % 100); queue = [] }, mb, k)) parsed

  -- A new client with full names, whose two requests are written and reach the simulated boiler,
  -- connects to it: both calls are answered, the client ends with no error, with the boiler's key,
  -- with its serial as a payload's text is read, two numbers further and with nothing waiting. The
  -- boiler's settings hold its key, its serial and its key have no semicolon and together at most
  -- 900 bytes, and the key is no number and is parsed.
  pub connect-boiler :
      {C : Type 0} (format : KeyFormat) (call call' : Call) (cb cb' : C) (nbe : Nbe C)
      (mb : MockBoiler F) (key : PublicKey) {n seconds seconds' : ℕ}
      → IsReady runtime nbe n
      → nbe.rsa_key ≡ none
      → Works runtime call seconds
      → Works runtime call' seconds'
      → Serves mb
      → rsa_key_from_base64 format mb.rsa_key_base64 ≡ ok key
      → connect runtime (boiler_network runtime) format call call' cb cb' nbe mb ≡ (
        record nbe {
          serial = show_scalar runtime (parse_value runtime mb.serial);
          seq_no = pos ((n + 2) % 100);
          rsa_key = some key;
          queue = [];
        },
        mb,
        ok tt,
      )
  unfolding connect discovery_request named process_request lookup show_value
  connect-boiler format call call' cb cb' nbe mb key {n = n} {seconds = seconds} ready keyless works
        works' serves parsed =
      let next = record nbe { seq_no = pos ((n + 1) % 100); queue = [] } in
      let named_next = record next {
        serial = show_scalar runtime (parse_value runtime mb.serial);
      } in
      let ready' : IsReady runtime named_next ((n + 1) % 100) = record {
        app_ascii = ready.app_ascii;
        app_full = ready.app_full;
        controller_ascii = ready.controller_ascii;
        controller_full = ready.controller_full;
        seq_no_is = refl;
        seq_no_two = omega arith;
        queue_empty = refl;
      } in
      let twice : ((n + 1) % 100 + 1) % 100 ≡ (n + 2) % 100 = omega arith in
      rw
        (
          (send-answer runtime call cb nbe mb ready works 0 (omega arith) (codes "NBE Discovery")
              (omega arith) (omega arith) mb (named mb) refl refl refl (named-IsWritable mb serves)
              (named-KeysNe mb) (length-named mb serves)).0,
          get_rsa_key-boiler format call' cb' named_next mb key ready' keyless works' serves parsed,
          twice,
        )
        refl
