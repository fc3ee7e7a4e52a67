-- ===== src/Go/Parse.antt =====
-- `strconv.ParseInt` in base 10, and `fmt.Sscanf` with the one verb `%d`.
use boiler_mate.Prelude.{
  ◌++◌, ◌+◌, ℕ, zero, suc, ◌-◌, ◌≤◌, ◌<◌, ◌^◌, ◌≡◌, refl, ◌∙◌, Bool, true, false, ◌||◌, [], ◌∷◌,
  Option, none, some, arith, ltb, leb, eqb, if◌then◌else◌, Bytes, length, replicate, All,
  All-append, All-replicate, All-imp, length-replicate, codes, lt→ltb, le→leb, length-append,
}
use boiler_mate.Prelude.Int.{ℤ, pos, negsuc}
use boiler_mate.Go.Decimal.{
  length-decimal, IsDigit, is_digit, decimal, spell, spell-decimal, spell-zeros, decimal-IsDigit,
  decimal_pos,
}
use boiler_mate.Go.Format.{format_int, format_int_0}
use boiler_mate.Go.Space.{IsPrint, spaces, cut_any, cut_any-spaces}

abbrev negate : ℕ → ℤ
negate zero = pos 0
negate (suc n) = negsuc n

-- A magnitude behind a sign (`true` for minus), if it fits `bits` bits.
in_bits : ℕ → Bool → ℕ → Option ℤ
in_bits bits false n = if ltb n (2 ^ (bits - 1)) then some (pos n) else none
in_bits bits true n = if leb n (2 ^ (bits - 1)) then some (negate n) else none

magnitude : ℕ → Bool → Bytes → Option ℤ
unfolding in_bits
magnitude bits minus [] = none
magnitude bits minus (c ∷ s) = elim (spell 0 (c ∷ s)) [
  | none ↦ none
  | some n ↦ in_bits bits minus n
]

-- `strconv.ParseInt(s, 10, bits)`; `none` is an error.
unfoldable pub parse_int : ℕ → Bytes → Option ℤ
unfolding magnitude spell
parse_int bits [] = none
parse_int bits (c ∷ s) =
    if eqb c b'+'
    then magnitude bits false s
    else if eqb c b'-'
    then magnitude bits true s
    else magnitude bits false (c ∷ s)

-- `SkipSpace` of a scan where a newline is no space: `none` is "unexpected newline".
skip_space : ℕ → Bytes → Option Bytes
unfolding cut_any
skip_space zero s = some s
skip_space (suc f) [] = some []
skip_space (suc f) (c ∷ s) =
    let more : Option Bytes = elim (cut_any spaces (c ∷ s)) [
      | none ↦ some (c ∷ s)
      | some rest ↦ skip_space f rest
    ] in
    if eqb c b'\n' then none else more

leading_digits : Bytes → Bytes
leading_digits [] = []
leading_digits (c ∷ s) = if is_digit c then c ∷ leading_digits s else []

-- The token that `%d` reads: a sign, if there is one, and the digits behind it.
token : Bytes → Bytes
unfolding leading_digits
token [] = []
token (c ∷ s) = if eqb c b'+' || eqb c b'-' then c ∷ leading_digits s else leading_digits (c ∷ s)

-- `fmt.Sscanf(s, "%d", &value)` into an `int` or `int64` of 64 bits. What follows the token is
-- not looked at.
unfoldable pub scan_int : Bytes → Option ℤ
unfolding skip_space token parse_int
scan_int s = elim (skip_space (length s) s) [ none ↦ none | some t ↦ parse_int 64 (token t) ]

pub format_int_0-IsDigit : (w n : ℕ) → All IsDigit (format_int_0 w (pos n))
unfolding format_int_0
format_int_0-IsDigit w n =
    All-append IsDigit (replicate (w - length (decimal n)) b'0') (decimal n)
      (All-replicate IsDigit (w - length (decimal n)) b'0' (omega arith)) (decimal-IsDigit n)

spell-format_int_0 : (w n : ℕ) → spell 0 (format_int_0 w (pos n)) ≡ some n
unfolding format_int_0
spell-format_int_0 w n = spell-zeros (w - length (decimal n)) (decimal n) ∙ spell-decimal n

-- Digits that spell a number in range are parsed to it.
parse_int-digits :
    (bits n : ℕ) (s : Bytes)
    → All IsDigit s
    → 1 ≤ length s
    → spell 0 s ≡ some n
    → n < 2 ^ (bits - 1)
    → parse_int bits s ≡ some (pos n)
unfolding parse_int in_bits
parse_int-digits bits n [] h l e lt = absurd (omega arith)
parse_int-digits bits n (c ∷ s) h l e lt = ground (arith, lt→ltb n (2 ^ (bits - 1)) lt)

leading_digits-All : (s : Bytes) → All IsDigit s → leading_digits s ≡ s
unfolding leading_digits
leading_digits-All [] h = refl
leading_digits-All (c ∷ s) h = ground (arith, leading_digits-All s h.1)

skip_space-digit : (f c : ℕ) (s : Bytes) → IsDigit c → skip_space (suc f) (c ∷ s) ≡ some (c ∷ s)
unfolding skip_space
skip_space-digit f c s h = ground (arith, cut_any-spaces c s (omega arith))

token-digits : (c : ℕ) (s : Bytes) → All IsDigit (c ∷ s) → token (c ∷ s) ≡ c ∷ s
unfolding token
token-digits c s h = ground (arith, leading_digits-All s h.1)

scan_int-digits :
    (n : ℕ) (s : Bytes)
    → All IsDigit s
    → 1 ≤ length s
    → spell 0 s ≡ some n
    → n < 2 ^ 63
    → scan_int s ≡ some (pos n)
unfolding scan_int
scan_int-digits n [] h l e lt = absurd (omega arith)
scan_int-digits n (c ∷ s) h l e lt =
    rw (skip_space-digit (length s) c s h.0, scan_int, token-digits c s h)
      (parse_int-digits 64 n (c ∷ s) h l e lt)

one_digit : (w n : ℕ) → 1 ≤ length (format_int_0 w (pos n))
unfolding format_int_0
one_digit w n =
    omega
      (arith, length-append (replicate (w - length (decimal n)) b'0') (decimal n), decimal_pos n)

-- Both readers take a zero-padded number back.
pub parse_int-format_int_0 :
    (bits w n : ℕ) → n < 2 ^ (bits - 1) → parse_int bits (format_int_0 w (pos n)) ≡ some (pos n)
parse_int-format_int_0 bits w n =
    parse_int-digits bits n (format_int_0 w (pos n)) (format_int_0-IsDigit w n) (one_digit w n)
      (spell-format_int_0 w n)

pub scan_int-format_int_0 :
    (w n : ℕ) → n < 2 ^ 63 → scan_int (format_int_0 w (pos n)) ≡ some (pos n)
scan_int-format_int_0 w n =
    scan_int-digits n (format_int_0 w (pos n)) (format_int_0-IsDigit w n) (one_digit w n)
      (spell-format_int_0 w n)

pub format_int_0-IsPrint : (w n : ℕ) → All IsPrint (format_int_0 w (pos n))
format_int_0-IsPrint w n =
    All-imp (format_int_0 w (pos n)) (λ c h. omega arith) (format_int_0-IsDigit w n)

-- An integer within `bits` bits.
abbrev pub InBits : ℕ → ℤ → Type 0
InBits bits (pos n) = n < 2 ^ (bits - 1)
InBits bits (negsuc n) = n < 2 ^ (bits - 1)

magnitude-minus :
    (bits n : ℕ) (s : Bytes)
    → 1 ≤ length s
    → spell 0 s ≡ some (suc n)
    → n < 2 ^ (bits - 1)
    → magnitude bits true s ≡ some (negsuc n)
unfolding magnitude
magnitude-minus bits n [] l e h = absurd (omega arith)
magnitude-minus bits n (c ∷ s) l e h = rw (e, magnitude, in_bits, le→leb (suc n) (2 ^ (bits - 1)) h)

-- `strconv.ParseInt` undoes `%d`.
pub parse_int-format_int :
    (bits : ℕ) (z : ℤ) → InBits bits z → parse_int bits (format_int z) ≡ some z
unfolding format_int
parse_int-format_int bits (pos n) h =
    parse_int-digits bits n (decimal n) (decimal-IsDigit n) (decimal_pos n) (spell-decimal n) h
parse_int-format_int bits (negsuc n) h =
    unfold parse_int in
    magnitude-minus bits n (decimal (suc n)) (decimal_pos (suc n)) (spell-decimal (suc n)) h

-- White space and a sign in front are read, trailing text is dropped by the scan only.
parsed :
    (parse_int 64 (codes "-12") ≡ some (negsuc 11))
    × (parse_int 32 (codes "2147483648") ≡ none)
    × (parse_int 64 (codes "7x") ≡ none)
    × (scan_int (codes " +7x") ≡ some (pos 7))
    × (scan_int (codes "\n7") ≡ none)
unfolding parse_int scan_int
parsed = (refl, refl, refl, refl, refl)

format_int_0-minus :
    (w n : ℕ)
    → (digits : Bytes) × (format_int_0 w (negsuc n) ≡ b'-' ∷ digits)
      × All IsDigit digits
      × (1 ≤ length digits)
      × (spell 0 digits ≡ some (suc n))
      × (length digits ≡ (w - 1 - length (decimal (suc n))) + length (decimal (suc n)))
unfolding format_int_0
format_int_0-minus w n =
    let k = w - 1 - length (decimal (suc n)) in
    let count = length-append (replicate k b'0') (decimal (suc n)) in
    (
      replicate k b'0' ++ decimal (suc n),
      refl,
      All-append IsDigit (replicate k b'0') (decimal (suc n))
          (All-replicate IsDigit k b'0' (omega arith)) (decimal-IsDigit (suc n)),
      omega (arith, count, decimal_pos (suc n)),
      spell-zeros k (decimal (suc n)) ∙ spell-decimal (suc n),
      omega (arith, count, length-replicate {A = ℕ} k b'0'),
    )

-- A negative number is read back as well.
pub parse_int-format_int_0-minus :
    (bits w n : ℕ)
    → n < 2 ^ (bits - 1)
    → parse_int bits (format_int_0 w (negsuc n)) ≡ some (negsuc n)
parse_int-format_int_0-minus bits w n h =
    let (digits, shape, all_digits, some_digits, value, count) = format_int_0-minus w n in
    rw shape (unfold parse_int in magnitude-minus bits n digits some_digits value h)

pub format_int_0-minus-IsPrint : (w n : ℕ) → All IsPrint (format_int_0 w (negsuc n))
format_int_0-minus-IsPrint w n =
    let (digits, shape, all_digits, some_digits, value, count) = format_int_0-minus w n in
    rw shape (omega arith, All-imp digits (λ c h. omega arith) all_digits)

-- It fills its field if its digits fit behind the sign.
pub length-format_int_0-minus :
    (k n : ℕ) → suc n < 10 ^ suc k → length (format_int_0 (suc (suc k)) (negsuc n)) ≡ suc (suc k)
length-format_int_0-minus k n h =
    let (digits, shape, all_digits, some_digits, value, count) =
      format_int_0-minus (suc (suc k)) n in
    rw shape (omega (arith, count, length-decimal k (suc n) h))
