-- ===== src/Monitor/Fixtures.antt =====
-- Concrete libraries and a monitor for the examples of the monitors.
use boiler_mate.Prelude.{
  ℕ, ◌≡◌, refl, true, false, Bool, [], ◌∷◌, Bytes, codes, Option, some, ◌==◌, bytes_eq, nat_eq,
  ◌&&◌,
}
use boiler_mate.Prelude.Int.{pos, int_eq}
use boiler_mate.Go.Map.{Map, insert, beq_refl}
use boiler_mate.Nbe.Types.{Scalar, int64, rounded, text, Value, scalar, range}
use boiler_mate.Monitor.{Libraries, IsEqual, Monitor}

abbrev pub scalar_beq : Scalar ℕ → Scalar ℕ → Bool
scalar_beq (int64 a) (int64 b) = a == b
scalar_beq (rounded a) (rounded b) = a == b
scalar_beq (text a) (text b) = a == b
scalar_beq _ _ = false

abbrev pub value_beq : Option (Value ℕ) → Value ℕ → Bool
value_beq (some (scalar a)) (scalar b) = scalar_beq a b
value_beq (some (range a b c d)) (range a' b' c' d') =
    scalar_beq a a' && (scalar_beq b b' && (scalar_beq c c' && scalar_beq d d'))
value_beq _ _ = false

-- A registry that is the list of the names it was given.
abbrev pub libraries : Libraries ℕ (Map Bytes Bytes)
libraries = record {
  equal = value_beq;
  register = λ subsystem name registry. (insert name subsystem registry, true);
}

scalar_beq_self : (a : Scalar ℕ) → scalar_beq a a ≡ true
scalar_beq_self (int64 z) = beq_refl z
scalar_beq_self (rounded x) = beq_refl x
scalar_beq_self (text s) = beq_refl s

value_beq_self : (v : Value ℕ) → value_beq (some v) v ≡ true
value_beq_self (scalar a) = scalar_beq_self a
value_beq_self (range a b c d) =
    rw (scalar_beq_self a, scalar_beq_self b, scalar_beq_self c, scalar_beq_self d) refl

pub libraries-IsEqual : IsEqual libraries
libraries-IsEqual = record { equal_self = value_beq_self; equal_nil = λ v. refl }

abbrev pub start : Monitor ℕ (Map Bytes Bytes)
start = record {
  cache = (codes "temp", scalar (int64 (pos 65))) ∷ [];
  gauges = [];
  registry = [];
  first_publish = true;
  ready = false;
}
