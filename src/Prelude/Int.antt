-- ===== src/Prelude/Int.antt =====
-- Signed integers over the native numbers, under the library's names (its ℤ stands on the unary ℕ),
-- and Go's conversions to `int8`, `int16` and `uint8`, which keep the low bits.
use boiler_mate.Prelude.{
  ℕ, ◌+◌, ◌-◌, ◌%◌, ◌<◌, ◌≡◌, ◌↔◌, Bool, true, false, arith, ltb, eqb, if◌then◌else◌, Eq,
}

-- `negsuc n` is -(n + 1).
pub data ℤ : Type 0 where
  pos : ℕ → ℤ
  negsuc : ℕ → ℤ

abbrev pub int_beq : ℤ → ℤ → Bool
int_beq (pos a) (pos b) = eqb a b
int_beq (negsuc a) (negsuc b) = eqb a b
int_beq _ _ = false

pub int_beq_iff : (a b : ℤ) → (int_beq a b ≡ true) ↔ (a ≡ b)
int_beq_iff (pos a) (pos b) = ground arith
int_beq_iff _ _ = ground arith

instance abbrev pub int_eq : Eq ℤ
int_eq = record { same = int_beq; same_iff = int_beq_iff }

-- The residue of an integer modulo `m`.
abbrev pub residue : ℕ → ℤ → ℕ
residue m (pos n) = n % m
residue m (negsuc n) = m - 1 - n % m

-- The integer in -h … h - 1 with the same low bits, for `h` the half of the width's modulus.
abbrev pub signed : ℕ → ℤ → ℤ
signed h z = let r = residue (h + h) z in if ltb r h then pos r else negsuc (h + h - 1 - r)

abbrev pub to_int8 : ℤ → ℤ
to_int8 = signed 128

abbrev pub to_int16 : ℤ → ℤ
to_int16 = signed 32768

abbrev pub to_uint8 : ℤ → ℕ
to_uint8 = residue 256

pub to_int8_small : (n : ℕ) → n < 128 → to_int8 (pos n) ≡ pos n
to_int8_small n h = ground arith

pub to_int16_small : (n : ℕ) → n < 32768 → to_int16 (pos n) ≡ pos n
to_int16_small n h = ground arith

pub to_uint8_small : (n : ℕ) → n < 256 → to_uint8 (pos n) ≡ n
to_uint8_small n h = omega arith
