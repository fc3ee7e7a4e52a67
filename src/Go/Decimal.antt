-- ===== src/Go/Decimal.antt =====
-- Decimal digits of a number, and the value that a run of digits spells.
use native.Mathlib.Nat.{pow-suc}
use boiler_mate.Prelude.{
  ℕ, zero, suc, ◌+◌, ◌-◌, ◌*◌, ◌/◌, ◌%◌, ◌^◌, ◌≤◌, ◌<◌, ◌≡◌, refl, ◌∙◌, Bool, ◌&&◌, [], ◌∷◌, ◌++◌,
  Option, none, some, arith, ltb, leb, if◌then◌else◌, Bytes, length, length-append, All, All-append,
  replicate, inl, inr, Bool-cases,
}

abbrev pub IsDigit : ℕ → Type 0
IsDigit c = (b'0' ≤ c) × (c ≤ b'9')

abbrev pub is_digit : ℕ → Bool
is_digit c = leb b'0' c && leb c b'9'

-- The digits of `n`, with fuel for one round a digit; `suc n` rounds are always enough.
digits : ℕ → ℕ → Bytes
digits zero n = []
digits (suc f) n =
    let more = digits f (n / 10) ++ ((b'0' + n % 10) ∷ []) in
    if ltb n 10 then (b'0' + n) ∷ [] else more

unfoldable pub decimal : ℕ → Bytes
unfolding digits
decimal n = digits (suc n) n

-- The number that digits spell behind `acc`; `none` at a byte that is no digit.
unfoldable pub spell : ℕ → Bytes → Option ℕ
spell acc [] = some acc
spell acc (c ∷ s) = if is_digit c then spell (acc * 10 + (c - b'0')) s else none

digits-IsDigit : (f n : ℕ) → All IsDigit (digits f n)
unfolding digits
digits-IsDigit zero n = tt
digits-IsDigit (suc f) n = elim (Bool-cases (ltb n 10)) [
  | inl low ↦ rw low (ground arith)
  | inr high ↦ rw high (
      All-append IsDigit (digits f (n / 10)) ((b'0' + n % 10) ∷ []) (digits-IsDigit f (n / 10))
        (omega arith))
]

pub decimal-IsDigit : (n : ℕ) → All IsDigit (decimal n)
unfolding decimal
decimal-IsDigit n = digits-IsDigit (suc n) n

-- A run of digits in front of a text is read before the rest.
spell-step :
    (acc c : ℕ) (s : Bytes) → IsDigit c → spell acc (c ∷ s) ≡ spell (acc * 10 + (c - b'0')) s
unfolding spell
spell-step acc c s h = ground arith

spell_last :
    (acc n c : ℕ) (s : Bytes)
    → spell acc s ≡ some n
    → IsDigit c
    → spell acc (s ++ c ∷ []) ≡ some (n * 10 + (c - b'0'))
unfolding spell
spell_last acc n c [] e h = ground arith
spell_last acc n c (d ∷ s) e h = ground (arith, spell_last (acc * 10 + (d - b'0')) n c s)

spell-digits : (f n : ℕ) → n < f → spell 0 (digits f n) ≡ some n
unfolding digits
spell-digits zero n h = absurd (omega arith)
spell-digits (suc f) n h = elim (Bool-cases (ltb n 10)) [
  | inl low ↦ rw low (unfold spell in ground arith)
  | inr high ↦ rw high (
      spell_last 0 (n / 10) (b'0' + n % 10) (digits f (n / 10))
        (spell-digits f (n / 10) (ground arith)) (omega arith)
      ∙ ground arith)
]

-- Reading the digits of a number gives it back.
pub spell-decimal : (n : ℕ) → spell 0 (decimal n) ≡ some n
unfolding decimal
spell-decimal n = spell-digits (suc n) n (omega arith)

-- Leading zeros change nothing.
pub spell-zeros : (k : ℕ) (s : Bytes) → spell 0 (replicate k b'0' ++ s) ≡ spell 0 s
spell-zeros zero s = refl
spell-zeros (suc k) s = spell-step 0 b'0' (replicate k b'0' ++ s) (omega arith) ∙ spell-zeros k s

length-digits : (k f n : ℕ) → n < 10 ^ suc k → length (digits f n) ≤ suc k
unfolding digits
length-digits k zero n h = omega arith
length-digits zero (suc f) n h = ground arith
length-digits (suc k) (suc f) n h = elim (Bool-cases (ltb n 10)) [
  | inl low ↦ rw low (omega arith)
  | inr high ↦ rw high (
      omega (
        arith,
        length-append (digits f (n / 10)) ((b'0' + n % 10) ∷ []),
        length-digits k f (n / 10) (omega (arith, pow-suc 10 (suc k))),
      ))
]

-- A number below `10 ^ (k + 1)` has at most `k + 1` digits.
pub length-decimal : (k n : ℕ) → n < 10 ^ suc k → length (decimal n) ≤ suc k
unfolding decimal
length-decimal k n h = length-digits k (suc n) n h

digits_pos : (f n : ℕ) → 1 ≤ length (digits (suc f) n)
unfolding digits
digits_pos f n = elim (Bool-cases (ltb n 10)) [
  | inl low ↦ rw low (omega arith)
  | inr high ↦ rw high (omega (arith, length-append (digits f (n / 10)) ((b'0' + n % 10) ∷ [])))
]

-- A number has at least one digit.
pub decimal_pos : (n : ℕ) → 1 ≤ length (decimal n)
unfolding decimal
decimal_pos n = digits_pos n n
