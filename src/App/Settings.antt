-- ===== src/App/Settings.antt =====
-- cmd/boiler-mate/main.go: what a message on a set topic does to the boiler.
use boiler_mate.Prelude.{
  ℕ, ◌≡◌, refl, ◌∙◌, ap, inl, inr, Bool-cases, arith, true, false, [], ◌∷◌, ◌++◌, Bytes, codes,
  some, ◌≤◌, All, le→leb, length, ◌==◌, bytes_eq, Bool, if◌then◌else◌, ◌||◌, ◌&&◌,
}
use boiler_mate.Go.Split.{Lacks}
use boiler_mate.Go.BigInt.{IsByte}
use boiler_mate.Nbe.Types.{Runtime, text}
use boiler_mate.Nbe.Request
use boiler_mate.Nbe.Request.{NbeRequest, PublicKey}
use boiler_mate.Nbe.Request.RoundTrip.{Fits, received}
use boiler_mate.Nbe.Request.Encryption.{pack-panic}
use boiler_mate.Nbe.Mock.{
  MockBoiler, process_request, handle_request, set_data, set_value, get_value, Table,
}
use boiler_mate.Nbe.Mock.Decryption.{IsKeyPair, IsRandom, handle_request-pack}
use boiler_mate.Nbe.Mock.Settings.{
  get_value-set_value, send-state, process_request-settings, set_data-set_value,
}
use boiler_mate.Nbe.Client.{Nbe, Call, next_seq, set_request, set_async, send_async}
use boiler_mate.App.{set_handler, translate_power_command, parse_set_topic}
use boiler_mate.App.Topics.{set_topic, parse_set_topic-set_topic}

-- The request that goes out for a path and a value.
abbrev pub sent_request : {C : Type 0} → Nbe C → Bytes → Bytes → NbeRequest
sent_request nbe path value = record (set_request nbe path value) { seq_no = next_seq nbe.seq_no }

module _ {F : Type 0} (runtime : Runtime F) (mb : MockBoiler F) where
  module _ (call : Call) (path value : Bytes) {C : Type 0} (cb : C) (nbe : Nbe C) {n seconds : ℕ}
      (fits : Fits call.now 2 n seconds (sent_request nbe path value)) {key : PublicKey}
      (keys : IsKeyPair key mb.rsa_private_key) (random : IsRandom call.random)
      (keyed : nbe.rsa_key ≡ some key) (bytes : All IsByte (path ++ (b'=' ∷ value)))
      (short : length (path ++ (b'=' ∷ value)) ≤ 31) where
    is_keyed : (sent_request nbe path value).rsa_key ≡ some key
    unfolding set_request
    is_keyed = keyed

    set_async-packet :
        call.resolves ≡ true
        → call.written ≡ true
        → (set_async call path value cb nbe).1
          ≡ some (Request.pack call.now call.random (sent_request nbe path value) []).1
    unfolding set_async send_async set_request
    set_async-packet resolves written =
        rw
          (
            resolves,
            pack-panic call.now fits call.random key is_keyed,
            le→leb (length (path ++ (b'=' ∷ value))) 31 short,
            written,
          )
          refl

    handle_request-settings :
        Lacks b'=' path
        → (handle_request runtime mb
            (Request.pack call.now call.random (sent_request nbe path value) []).1).0.settings
          ≡ set_data path value mb.settings
    unfolding set_request
    handle_request-settings plain =
        ap (λ p. p.0.settings)
          (handle_request-pack runtime mb call.now fits keys random is_keyed bytes short)
        ∙ ap (λ m. m.settings)
            (send-state runtime
              (process_request mb (received call.now (sent_request nbe path value))))
        ∙ process_request-settings mb (received call.now (sent_request nbe path value)) path value
            refl refl plain

    -- A call that resolves the address and writes the packet delivers a set of the path.
    set_async-settings :
        Lacks b'=' path
        → call.resolves ≡ true
        → call.written ≡ true
        → (packet : Bytes) × ((set_async call path value cb nbe).1 ≡ some packet)
          × ((handle_request runtime mb packet).0.settings ≡ set_data path value mb.settings)
    set_async-settings plain resolves written = (
      (Request.pack call.now call.random (sent_request nbe path value) []).1,
      set_async-packet resolves written,
      handle_request-settings plain,
    )

-- The command of a topic that is not the power switch.
pub plain_command :
    (prefix category param value : Bytes)
    → Lacks b'/' category
    → Lacks b'/' param
    → (category ++ (b'.' ∷ param) == codes "device.power_switch") ≡ false
    → translate_power_command (parse_set_topic (set_topic prefix category param)) value
      ≡ (category ++ (b'.' ∷ param), value)
unfolding translate_power_command
plain_command prefix category param value plain plain' other =
    rw (parse_set_topic-set_topic prefix category param plain plain', other)

-- The values that switch the boiler on.
abbrev pub is_on : Bytes → Bool
is_on value = value == codes "ON" || value == codes "1"

-- The key that the power switch sets.
abbrev pub power_key : Bytes → Bytes
power_key value = if is_on value then codes "misc.start" else codes "misc.stop"

power_command :
    (prefix value : Bytes)
    → translate_power_command
        (parse_set_topic (set_topic prefix (codes "device") (codes "power_switch")))
        value
      ≡ (power_key value, codes "1")
unfolding translate_power_command
power_command prefix value =
    rw
      (parse_set_topic-set_topic prefix (codes "device") (codes "power_switch") (ground arith)
        (ground arith))
      (elim (Bool-cases (is_on value)) [ inl on ↦ rw on | inr off ↦ rw off ])

set_data-power_key :
    {F : Type 0} (value : Bytes) (m : Table F)
    → set_data (power_key value) (codes "1") m
      ≡ set_value
          (codes "misc")
          (if is_on value then codes "start" else codes "stop")
          (text (codes "1"))
          m
set_data-power_key value m = elim (Bool-cases (is_on value)) [
  | inl on ↦ rw on (set_data-set_value (codes "misc") (codes "start") (codes "1") m (ground arith))
  | inr off ↦ rw off (set_data-set_value (codes "misc") (codes "stop") (codes "1") m (ground arith))
]

power_key-Lacks : (value : Bytes) → Lacks b'=' (power_key value)
power_key-Lacks value = elim (Bool-cases (is_on value)) [
  | inl on ↦ rw on (ground arith)
  | inr off ↦ rw off (ground arith)
]

power_key-IsByte : (value : Bytes) → All IsByte (power_key value ++ (b'=' ∷ codes "1"))
power_key-IsByte value = elim (Bool-cases (is_on value)) [
  | inl on ↦ rw on (ground arith)
  | inr off ↦ rw off (ground arith)
]

length-power_key : (value : Bytes) → length (power_key value ++ (b'=' ∷ codes "1")) ≤ 31
length-power_key value = elim (Bool-cases (is_on value)) [
  | inl on ↦ rw on (ground arith)
  | inr off ↦ rw off (ground arith)
]

module _ {F : Type 0} (runtime : Runtime F) (mb : MockBoiler F) (call : Call) (prefix value : Bytes)
    (nbe : Nbe (Bytes × Bytes)) {key : PublicKey} (keys : IsKeyPair key mb.rsa_private_key)
    (random : IsRandom call.random) (keyed : nbe.rsa_key ≡ some key)
    (resolves : call.resolves ≡ true) (written : call.written ≡ true) where
  -- A message on the set topic of a category and a parameter, not the power switch, with a key in
  -- the client, is sent as one packet, and the simulated boiler with that key pair that gets the
  -- packet holds the value under the category and the parameter and every other value as before;
  -- the names lack slashes and equals signs, the category lacks a dot, the request fits its fields
  -- and its payload has at most 31 bytes; the address resolves and the packet is written.
  pub set_handler-get_value :
      (category param : Bytes) {n seconds : ℕ}
      → Lacks b'/' category
      → Lacks b'/' param
      → Lacks b'.' category
      → Lacks b'=' (category ++ (b'.' ∷ param))
      → (category ++ (b'.' ∷ param) == codes "device.power_switch") ≡ false
      → Fits call.now 2 n seconds (sent_request nbe (category ++ (b'.' ∷ param)) value)
      → All IsByte ((category ++ (b'.' ∷ param)) ++ (b'=' ∷ value))
      → length ((category ++ (b'.' ∷ param)) ++ (b'=' ∷ value)) ≤ 31
      → (packet : Bytes) × ((set_handler call (set_topic prefix category param) value nbe).1
          ≡ some packet)
        × ((category' param' : Bytes)
            → get_value category' param' (handle_request runtime mb packet).0.settings ≡ (
                if category == category' && param == param'
                then some (text value)
                else get_value category' param' mb.settings))
  unfolding set_handler
  set_handler-get_value category param slash slash' dot equals other fits bytes short =
      let sent =
        set_async-settings runtime mb call (category ++ (b'.' ∷ param)) value
          (category ++ (b'.' ∷ param), value) nbe fits keys random keyed bytes short equals resolves
          written in
      (
        sent.0,
        rw (plain_command prefix category param value slash slash' other) sent.1,
        λ category' param'.
            rw (sent.2, set_data-set_value category param value mb.settings dot)
              (get_value-set_value category param category' param' (text value) mb.settings),
      )

  -- A message on the power switch, with a key in the client, is sent as one packet, and the
  -- simulated boiler with that key pair that gets the packet sets misc.start to 1 for the values ON
  -- and 1, and misc.stop to 1 for any other, and nothing else; the request fits its fields, the
  -- address resolves and the packet is written.
  pub set_handler-power_switch :
      {n seconds : ℕ}
      → Fits call.now 2 n seconds (sent_request nbe (power_key value) (codes "1"))
      → (packet : Bytes) × ((set_handler call
            (set_topic prefix (codes "device") (codes "power_switch"))
            value
            nbe).1
          ≡ some packet)
        × ((handle_request runtime mb packet).0.settings
            ≡ set_value
                (codes "misc")
                (if is_on value then codes "start" else codes "stop")
                (text (codes "1"))
                mb.settings)
  unfolding set_handler
  set_handler-power_switch fits =
      let sent =
        set_async-settings runtime mb call (power_key value) (codes "1")
          (power_key value, codes "1") nbe fits keys random keyed (power_key-IsByte value)
          (length-power_key value) (power_key-Lacks value) resolves written in
      (
        sent.0,
        rw (power_command prefix value) sent.1,
        sent.2 ∙ set_data-power_key value mb.settings,
      )
