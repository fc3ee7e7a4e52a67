-- ===== src/Monitor/Published/Texts.antt =====
-- nbe/types.go over encoding/json and go-cmp: the text of a value, and values that are equal.
use boiler_mate.Prelude.{
  ◌≡◌, refl, ◌∙◌, ap, sym, Bool, true, false, ◌&&◌, ◌++◌, Bytes, codes, Option, none, some, ◌==◌,
  arith, bytes_eq, bytes_beq_iff, if◌then◌else◌,
}
use boiler_mate.Prelude.Int.{int_eq, int_beq_iff}
use boiler_mate.Go.Format.{format_int}
use boiler_mate.Nbe.Types.{
  Runtime, Scalar, text, int64, rounded, Value, scalar, range, marshal_json, equal,
}
use boiler_mate.Mqtt.{Connection, payload_of}
use boiler_mate.Go.Map.{beq_refl}
use boiler_mate.Monitor.{Libraries, IsEqual}
use boiler_mate.Monitor.Published.{message_of}

-- encoding/json's text of a string, and `json.Valid`.
pub record Json : Type 0 where
  pub quote : Bytes → Bytes
  pub valid : Bytes → Bool

-- An object of four entries, with its keys in order, where each has a text.
abbrev pub object : Option Bytes → Option Bytes → Option Bytes → Option Bytes → Option Bytes
object (some low) (some high) (some default) (some decimals) = some (
    codes "{\"decimals\":"
    ++ (decimals
        ++ (codes ",\"default\":"
            ++ (default
                ++ (codes ",\"max\":" ++ (high ++ (codes ",\"min\":" ++ (low ++ codes "}"))))))))
object _ _ _ _ = none

module _ {F : Type 0} (runtime : Runtime F) where
  -- The text of a value. What the method MarshalJSON returns must be valid.
  abbrev pub scalar_json : Json → Scalar F → Option Bytes
  scalar_json json (text s) = some (json.quote s)
  scalar_json json (int64 z) = some (format_int z)
  scalar_json json (rounded x) =
      let number = marshal_json runtime (record { float = x }) in
      if json.valid number then some number else none

  abbrev pub value_json : Json → Value F → Option Bytes
  value_json json (scalar s) = scalar_json json s
  value_json json (range low high default decimals) =
      object (scalar_json json low) (scalar_json json high) (scalar_json json default)
        (scalar_json json decimals)

  -- Values of one type that are equal, rounded floats by their method Equal, and maps with equal
  -- entries; nothing equals nil.
  abbrev pub scalar_equal : Scalar F → Scalar F → Bool
  scalar_equal (text s) (text t) = s == t
  scalar_equal (int64 y) (int64 z) = y == z
  scalar_equal (rounded x) (rounded y) = equal runtime (record { float = x }) (record { float = y })
  scalar_equal _ _ = false

  abbrev pub value_equal : Option (Value F) → Value F → Bool
  value_equal (some (scalar a)) (scalar b) = scalar_equal a b
  value_equal (some (range a b c d)) (range a' b' c' d') =
      scalar_equal a a' && (scalar_equal b b' && (scalar_equal c c' && scalar_equal d d'))
  value_equal _ _ = false

  scalar_equal_self : (a : Scalar F) → scalar_equal a a ≡ true
  unfolding equal
  scalar_equal_self (text s) = beq_refl s
  scalar_equal_self (int64 z) = beq_refl z
  scalar_equal_self (rounded x) = beq_refl (runtime.format_float x)

  value_equal_self : (v : Value F) → value_equal (some v) v ≡ true
  value_equal_self (scalar a) = scalar_equal_self a
  value_equal_self (range a b c d) =
      rw (scalar_equal_self a, scalar_equal_self b, scalar_equal_self c, scalar_equal_self d) refl

  -- What json.Marshal and cmp.Equal document for the values of a payload.
  pub record IsDocumented {R B C : Type 0} (libraries : Libraries F R)
      (paho : Connection B C (Value F)) : Type 0 where
    pub json : Json
    pub marshal_is : (v : Value F) → paho.marshal v ≡ value_json json v
    pub equal_is : (o : Option (Value F)) (v : Value F) → libraries.equal o v ≡ value_equal o v

  scalar_equal-json :
      (json : Json) (a b : Scalar F)
      → scalar_equal a b ≡ true
      → scalar_json json a ≡ scalar_json json b
  unfolding marshal_json equal
  scalar_equal-json json (text s) (text t) h =
      ap (λ x. some (json.quote x)) ((bytes_beq_iff s t).0 h)
  scalar_equal-json json (int64 y) (int64 z) h =
      ap (λ x. some (format_int x)) ((int_beq_iff y z).0 h)
  scalar_equal-json json (rounded x) (rounded y) h =
      ap (λ n. if json.valid n then some n else none)
        ((bytes_beq_iff (runtime.format_float x) (runtime.format_float y)).0 h)
  scalar_equal-json json _ _ h = absurd (ground arith)

module _ {F R B C : Type 0} (runtime : Runtime F) (libraries : Libraries F R)
    (paho : Connection B C (Value F)) (documented : IsDocumented runtime libraries paho) where
  -- The payload that a value is published with, if it has one.
  abbrev pub text_of : Value F → Option Bytes
  text_of v = payload_of paho (message_of v)

  abbrev pub HasText : Bytes × Value F → Type 0
  HasText e = (t : Bytes) × (text_of e.1 ≡ some t)

  -- A value without a method of its own is marshalled.
  marshalled-equal :
      (v w : Value F)
      → value_json runtime documented.json v ≡ value_json runtime documented.json w
      → paho.marshal v ≡ paho.marshal w
  marshalled-equal v w same = documented.marshal_is v ∙ same ∙ sym (documented.marshal_is w)

  value_equal-text : (v w : Value F) → value_equal runtime (some v) w ≡ true → text_of v ≡ text_of w
  unfolding payload_of message_of
  value_equal-text (scalar (text s)) (scalar (text t)) h = ap some ((bytes_beq_iff s t).0 h)
  value_equal-text (scalar (int64 y)) (scalar (int64 z)) h =
      marshalled-equal (scalar (int64 y)) (scalar (int64 z))
        (scalar_equal-json runtime documented.json (int64 y) (int64 z) h)
  value_equal-text (scalar (rounded x)) (scalar (rounded y)) h =
      marshalled-equal (scalar (rounded x)) (scalar (rounded y))
        (scalar_equal-json runtime documented.json (rounded x) (rounded y) h)
  value_equal-text (range a b c d) (range a' b' c' d') h =
      let same : (x y : Scalar F)
          → scalar_equal runtime x y ≡ true
          → scalar_json runtime documented.json x ≡ scalar_json runtime documented.json y =
        scalar_equal-json runtime documented.json in
      let a_is : scalar_equal runtime a a' ≡ true = ground arith in
      let b_is : scalar_equal runtime b b' ≡ true = ground arith in
      let c_is : scalar_equal runtime c c' ≡ true = ground arith in
      let d_is : scalar_equal runtime d d' ≡ true = ground arith in
      marshalled-equal (range a b c d) (range a' b' c' d')
        (rw (same a a' a_is, same b b' b_is, same c c' c_is, same d d' d_is) refl)
  value_equal-text _ _ h = absurd (ground arith)

  -- Equal values have the same text.
  pub text_of-equal : (v w : Value F) → libraries.equal (some v) w ≡ true → text_of v ≡ text_of w
  text_of-equal v w h = value_equal-text v w (sym (documented.equal_is (some v) w) ∙ h)

  pub nothing_equals : (v : Value F) → libraries.equal none v ≡ false
  nothing_equals v = documented.equal_is none v

  -- A value equals itself, so that a repeated one is no change.
  pub documented-IsEqual : IsEqual libraries
  documented-IsEqual = record {
    equal_self = λ v. documented.equal_is (some v) v ∙ value_equal_self runtime v;
    equal_nil = nothing_equals;
  }
