-- ===== src/Nbe/Helpers/Fields.antt =====
-- What each reader and writer does with a field that is there: the lemmas that the frames' round
-- trips are built from.
use boiler_mate.Prelude.{
  ℕ, suc, ◌^◌, ◌≤◌, ◌<◌, ◌≡◌, refl, [], ◌∷◌, ◌++◌, String, Bytes, arith, length, take_append,
  drop_append, le→leb, All, length-append,
}
use boiler_mate.Prelude.Int.{pos, to_int8_small, to_int16_small}
use boiler_mate.Go.Format.{format_int_0, length-format_int_0, pad_string, length-pad_with, IsAscii}
use boiler_mate.Go.Parse.{parse_int-format_int_0, scan_int-format_int_0, format_int_0-IsPrint}
use boiler_mate.Go.Space.{trim_space-print}
use boiler_mate.Nbe.Action.{ok, err, failed_to_read}
use boiler_mate.Nbe.Helpers.{
  read_full, read_bytes, read_string, read_string_full, read_bytes_full, read_ascii_int,
  read_ascii_int64_full, read_ascii_int8, read_ascii_int16, read_ascii_int64, validate_marker,
  read_and_validate_marker, write_string, write_ascii_int,
}

-- A field in front of the unread input is read off, and nothing else.
pub read_full-append :
    (n : ℕ) (xs ys : Bytes) (name : String)
    → length xs ≡ n
    → read_full (pos n) name (xs ++ ys) ≡ (ok xs, ys)
unfolding read_full
read_full-append n xs ys name e = rw (← e) (
    rw (
      le→leb (length xs) (length (xs ++ ys)) (omega (arith, length-append xs ys)),
      take_append xs ys,
      drop_append xs ys,
    ))

-- An input that is too short is used up, and the field is missing.
pub read_full_short :
    (n : ℕ) (s : Bytes) (name : String)
    → length s < n
    → read_full (pos n) name s ≡ (err (failed_to_read name), [])
unfolding read_full
read_full_short n s name h = ground arith

pub read_ascii_int64_full-format :
    (k n : ℕ) (rest : Bytes) (name : String)
    → n < 10 ^ suc k
    → n < 2 ^ 63
    → read_ascii_int64_full (suc k) name (format_int_0 (suc k) (pos n) ++ rest) ≡ (ok (pos n), rest)
unfolding read_ascii_int64_full
read_ascii_int64_full-format k n rest name h fits = rw (
  read_full-append (suc k) (format_int_0 (suc k) (pos n)) rest name (length-format_int_0 k n h),
  trim_space-print (format_int_0 (suc k) (pos n)) (format_int_0-IsPrint (suc k) n),
  parse_int-format_int_0 64 (suc k) n fits,
)

pub read_ascii_int-format :
    (k n : ℕ) (rest : Bytes) (name : String)
    → n < 10 ^ suc k
    → n < 2 ^ 63
    → read_ascii_int (suc k) name (format_int_0 (suc k) (pos n) ++ rest) ≡ (ok (pos n), rest)
unfolding read_ascii_int
read_ascii_int-format k n rest name h fits = rw (
  read_full-append (suc k) (format_int_0 (suc k) (pos n)) rest name (length-format_int_0 k n h),
  scan_int-format_int_0 (suc k) n fits,
)

pub read_ascii_int64-format :
    (k n : ℕ) (rest : Bytes) (name : String)
    → n < 10 ^ suc k
    → n < 2 ^ 63
    → read_ascii_int64 (suc k) name (format_int_0 (suc k) (pos n) ++ rest) ≡ (ok (pos n), rest)
unfolding read_ascii_int64
read_ascii_int64-format k n rest name h fits = rw (
  read_full-append (suc k) (format_int_0 (suc k) (pos n)) rest name (length-format_int_0 k n h),
  scan_int-format_int_0 (suc k) n fits,
)

pub read_ascii_int8-format :
    (n : ℕ) (rest : Bytes) (name : String)
    → n < 100
    → read_ascii_int8 2 name (format_int_0 2 (pos n) ++ rest) ≡ (ok (pos n), rest)
unfolding read_ascii_int8
read_ascii_int8-format n rest name h =
    rw (read_ascii_int-format 1 n rest name h (omega arith), to_int8_small n (omega arith))

pub read_ascii_int16-format :
    (n : ℕ) (rest : Bytes) (name : String)
    → n < 100
    → read_ascii_int16 2 name (format_int_0 2 (pos n) ++ rest) ≡ (ok (pos n), rest)
unfolding read_ascii_int16
read_ascii_int16-format n rest name h =
    rw (read_ascii_int-format 1 n rest name h (omega arith), to_int16_small n (omega arith))

pub validate_marker-cons :
    (c : ℕ) (rest : Bytes) (name : String) → validate_marker c name (c ∷ rest) ≡ (ok tt, rest)
unfolding validate_marker
validate_marker-cons c rest name = ground arith

pub read_and_validate_marker-cons :
    (b c : ℕ) (rest : Bytes) (name : String)
    → read_and_validate_marker c name (b ∷ (c ∷ rest)) ≡ (ok tt, rest)
unfolding read_and_validate_marker
read_and_validate_marker-cons b c rest name = ground arith

-- A text of at most the field's width is written padded to it.
pub write_string-pad :
    (s : Bytes) (size : ℕ) (name : String) (b : Bytes)
    → All IsAscii s
    → length s ≤ size
    → write_string s size name b ≡ (ok tt, b ++ pad_string size s)
unfolding write_string
write_string-pad s size name b h l = ground (arith, length-pad_with b' ' size s h l)

-- A number of at most the field's width is written with leading zeros.
pub write_ascii_int-format :
    (k n : ℕ) (name : String) (b : Bytes)
    → n < 10 ^ suc k
    → write_ascii_int (pos n) (suc k) name b ≡ (ok tt, b ++ format_int_0 (suc k) (pos n))
unfolding write_ascii_int
write_ascii_int-format k n name b h = ground (arith, length-format_int_0 k n h)

pub read_string_full-append :
    (n : ℕ) (xs ys : Bytes) (name : String)
    → length xs ≡ n
    → read_string_full n name (xs ++ ys) ≡ (ok xs, ys)
unfolding read_string_full
read_string_full-append n xs ys name e = read_full-append n xs ys name e

pub read_bytes_full-append :
    (xs ys : Bytes) (name : String)
    → read_bytes_full (pos (length xs)) name (xs ++ ys) ≡ (ok xs, ys)
unfolding read_bytes_full
read_bytes_full-append xs ys name = read_full-append (length xs) xs ys name refl

pub read_string-append :
    (n : ℕ) (xs ys : Bytes) (name : String)
    → length xs ≡ n
    → read_string n name (xs ++ ys) ≡ (ok xs, ys)
unfolding read_string
read_string-append n xs ys name e = read_full-append n xs ys name e

pub read_bytes-append :
    (n : ℕ) (xs ys : Bytes) (name : String)
    → length xs ≡ n
    → read_bytes (pos n) name (xs ++ ys) ≡ (ok xs, ys)
unfolding read_bytes
read_bytes-append n xs ys name e = read_full-append n xs ys name e
