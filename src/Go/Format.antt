-- ===== src/Go/Format.antt =====
-- `fmt`'s padding of texts and decimal numbers: `%ws`, `%0ws`, `%0wd`, `%d` and `%v` of an integer.
use boiler_mate.Prelude.{
  ℕ, zero, suc, ◌-◌, ◌≤◌, ◌<◌, ◌^◌, ◌≡◌, refl, Bool, true, false, ◌&&◌, List, [], ◌∷◌, ◌++◌, arith,
  ltb, leb, eqb, if◌then◌else◌, Bytes, length, length-append, length-replicate, drop, replicate,
  All, codes,
}
use boiler_mate.Prelude.Int.{ℤ, pos, negsuc}
use boiler_mate.Go.Decimal.{decimal, length-decimal}

abbrev tail_byte : ℕ × ℕ
tail_byte = (0x80, 0xbf)

-- The ranges of the bytes that may follow a leading byte in UTF-8.
continuations : ℕ → List (ℕ × ℕ)
continuations c =
    if ltb c 0xc2
    then []
    else if leb c 0xdf
    then tail_byte ∷ []
    else if eqb c 0xe0
    then (0xa0, 0xbf) ∷ tail_byte ∷ []
    else if eqb c 0xed
    then (0x80, 0x9f) ∷ tail_byte ∷ []
    else if leb c 0xef
    then tail_byte ∷ tail_byte ∷ []
    else if eqb c 0xf0
    then (0x90, 0xbf) ∷ tail_byte ∷ tail_byte ∷ []
    else if leb c 0xf3
    then tail_byte ∷ tail_byte ∷ tail_byte ∷ []
    else if eqb c 0xf4
    then (0x80, 0x8f) ∷ tail_byte ∷ tail_byte ∷ []
    else []

in_ranges : List (ℕ × ℕ) → Bytes → Bool
in_ranges [] s = true
in_ranges ((lo, hi) ∷ rs) [] = false
in_ranges ((lo, hi) ∷ rs) (c ∷ s) = leb lo c && leb c hi && in_ranges rs s

-- The bytes of the rune behind its leading byte; a byte that begins no valid rune stands alone.
more_bytes : ℕ → Bytes → ℕ
unfolding continuations in_ranges
more_bytes c s = let rs = continuations c in if in_ranges rs s then length rs else 0

-- `utf8.RuneCountInString`, with fuel for one round a byte.
count_runes : ℕ → Bytes → ℕ
unfolding more_bytes
count_runes zero s = 0
count_runes (suc f) [] = 0
count_runes (suc f) (c ∷ s) = suc (count_runes f (drop (more_bytes c s) s))

unfoldable pub rune_count : Bytes → ℕ
unfolding count_runes
rune_count s = count_runes (length s) s

abbrev pub IsAscii : ℕ → Type 0
IsAscii c = c < 128

count_runes-ascii : (s : Bytes) → All IsAscii s → count_runes (length s) s ≡ length s
unfolding count_runes
count_runes-ascii [] h = refl
count_runes-ascii (c ∷ s) h = ground (arith, count_runes-ascii s h.1)

pub rune_count-ascii : (s : Bytes) → All IsAscii s → rune_count s ≡ length s
unfolding rune_count
rune_count-ascii s h = count_runes-ascii s h

-- A text padded on the left to `w` runes.
unfoldable pub pad_with : ℕ → ℕ → Bytes → Bytes
pad_with fill w s = replicate (w - rune_count s) fill ++ s

-- `fmt.Sprintf("%*s", w, s)`, and with the flag `0`.
abbrev pub pad_string : ℕ → Bytes → Bytes
pad_string = pad_with b' '

abbrev pub pad_string_0 : ℕ → Bytes → Bytes
pad_string_0 = pad_with b'0'

-- `%d`, which is also `%v` of an integer.
unfoldable pub format_int : ℤ → Bytes
format_int (pos n) = decimal n
format_int (negsuc n) = b'-' ∷ decimal (suc n)

-- `fmt.Sprintf("%0*d", w, z)`: the zeros stand behind the sign.
unfoldable pub format_int_0 : ℕ → ℤ → Bytes
format_int_0 w (pos n) = replicate (w - length (decimal n)) b'0' ++ decimal n
format_int_0 w (negsuc n) =
    b'-' ∷ (replicate (w - 1 - length (decimal (suc n))) b'0' ++ decimal (suc n))

-- A text of exactly `w` ASCII bytes is not padded.
pub pad_with_full : (fill w : ℕ) (s : Bytes) → All IsAscii s → length s ≡ w → pad_with fill w s ≡ s
unfolding pad_with
pad_with_full fill w s h e = rw (rune_count-ascii s h, e) (ground arith)

pub length-pad_with :
    (fill w : ℕ) (s : Bytes) → All IsAscii s → length s ≤ w → length (pad_with fill w s) ≡ w
unfolding pad_with
length-pad_with fill w s h e = omega (
  arith,
  length-append (replicate (w - rune_count s) fill) s,
  length-replicate {A = ℕ} (w - rune_count s) fill,
  rune_count-ascii s h,
)

-- A number of at most `w` digits is written with exactly `w`.
pub length-format_int_0 : (k n : ℕ) → n < 10 ^ suc k → length (format_int_0 (suc k) (pos n)) ≡ suc k
unfolding format_int_0
length-format_int_0 k n h = omega (
  arith,
  length-append (replicate (suc k - length (decimal n)) b'0') (decimal n),
  length-replicate {A = ℕ} (suc k - length (decimal n)) b'0',
  length-decimal k n h,
)

padded : (pad_string 6 (codes "abc") ≡ codes "   abc") × (format_int_0 4 (negsuc 11) ≡ codes "-012")
unfolding pad_with rune_count format_int_0 decimal
padded = (refl, refl)
