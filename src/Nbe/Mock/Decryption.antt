-- ===== src/Nbe/Mock/Decryption.antt =====
-- What the client encrypts, the boiler decrypts.
use boiler_mate.Nbe.Request.Encryption.{pack-encrypted, padded}
use boiler_mate.Nbe.Mock.{
  ok, process_request, send, handle_request, MockBoiler, Runtime, is_encrypted, decrypt,
  starts_encrypted,
}
use boiler_mate.Prelude.{
  ◌∙◌, sym, ap, refl, take_prefix, drop, length-append, append_assoc, ◌+◌, drop_prefix, some, ltb,
  true, false,
}
use mathlib.Core.Path.{subst}
use native.Mathlib.Nat.{le_trans}
use boiler_mate.Prelude.{
  ℕ, ◌-◌, ◌≤◌, ◌<◌, ◌^◌, ◌≡◌, ◌≢◌, [], ◌∷◌, ◌++◌, Bytes, codes, arith, length, All, All-append,
  All-imp, All-replicate, replicate,
}
use boiler_mate.Prelude.Int.{ℤ, pos}
use boiler_mate.Go.BigInt.{
  from_bytes, to_bytes, exp, IsByte, to_bytes-from_bytes, from_bytes-to_bytes, from_bytes-lt,
  to_bytes-nil, exp-zero,
}
use boiler_mate.Go.Format.{
  length-pad_with, pad_string_0, pad_string, rune_count, pad_with, IsAscii, format_int_0,
}
use boiler_mate.Go.Parse.{format_int_0-IsDigit}
use boiler_mate.Nbe.Request.{unpack, pack, body, NbeRequest, stamp, PublicKey, encrypt, pin_field}
use boiler_mate.Nbe.Request.RoundTrip.{unpack-body, received, length-body, Fits}
use boiler_mate.Nbe.Mock.{PrivateKey}

-- The documented behaviour of an RSA key pair, and of `rand.Read`: the secret exponent undoes the
-- public one below the modulus, which has room for 64 bytes.
pub record IsKeyPair (public : PublicKey) (private : PrivateKey) : Type 0 where
  pub same_modulus : private.modulus ≡ public.modulus
  pub exponent_pos : 0 < public.exponent
  pub room : 256 ^ 64 ≤ public.modulus
  pub inverts :
      (m : ℕ)
      → m < public.modulus
      → exp (exp m public.exponent public.modulus) private.secret public.modulus ≡ m

pub record IsRandom (random : ℕ → Bytes) : Type 0 where
  pub length_is : (k : ℕ) → length (random k) ≡ k
  pub bytes : (k : ℕ) → All IsByte (random k)

module _ {public : PublicKey} {private : PrivateKey} (pair : IsKeyPair public private) where
  in_room :
      (s : Bytes) → All IsByte (2 ∷ s) → length (2 ∷ s) ≡ 64 → from_bytes (2 ∷ s) < public.modulus
  in_room s h e =
      le_trans (subst (λ k. from_bytes (2 ∷ s) < 256 ^ k) e (from_bytes-lt (2 ∷ s) h)) pair.room

  -- Sixty-four bytes that begin with the start marker survive encryption.
  encrypt-decrypts :
      (s : Bytes)
      → All IsByte (2 ∷ s)
      → length (2 ∷ s) ≡ 64
      → to_bytes (exp (from_bytes (encrypt public (2 ∷ s))) private.secret private.modulus) ≡ 2 ∷ s
  unfolding encrypt
  encrypt-decrypts s h e =
      rw (from_bytes-to_bytes, pair.same_modulus, pair.inverts (from_bytes (2 ∷ s)) (in_room s h e))
        (to_bytes-from_bytes 2 s (omega arith) h)

  -- The ciphertext has at least one byte.
  encrypt-ne-nil :
      (s : Bytes) → All IsByte (2 ∷ s) → length (2 ∷ s) ≡ 64 → encrypt public (2 ∷ s) ≢ []
  unfolding encrypt
  encrypt-ne-nil s h e nil =
      let m = from_bytes (2 ∷ s) in
      let cipher = to_bytes-nil (exp m public.exponent public.modulus) nil in
      let none_of = exp-zero public.exponent public.modulus pair.exponent_pos in
      let room = in_room s h e in
      let from_zero = pair.inverts 0 (omega arith) in
      let zero_is : m ≡ 0 = cc (cipher, none_of, from_zero, pair.inverts m room) in
      let text_is : to_bytes 0 ≡ 2 ∷ s = rw zero_is at (to_bytes-from_bytes 2 s (omega arith) h) in
      unfold to_bytes in cc text_is

-- The bytes of a body are bytes, if those of its payload are.
pad_with-IsByte :
    (fill w : ℕ) (s : Bytes) → fill < 256 → All IsAscii s → All IsByte (pad_with fill w s)
unfolding pad_with
pad_with-IsByte fill w s f h =
    All-append IsByte (replicate (w - rune_count s) fill) s
      (All-replicate IsByte (w - rune_count s) fill f) (All-imp s (λ c k. omega arith) h)

pin_field-IsByte : (pin : Bytes) → All IsAscii pin → All IsByte (pin_field pin)
pin_field-IsByte [] h = omega arith
pin_field-IsByte (c ∷ s) h = pad_with-IsByte b' ' 10 (c ∷ s) (omega arith) h

number-IsByte : (w n : ℕ) → All IsByte (format_int_0 w (pos n))
number-IsByte w n = All-imp (format_int_0 w (pos n)) (λ c h. omega arith) (format_int_0-IsDigit w n)

-- The body behind the start marker.
abbrev tail_of : ℤ → NbeRequest → Bytes
tail_of now r =
    format_int_0 2 r.function
    ++ (format_int_0 2 r.seq_no
        ++ (pin_field r.pin_code
            ++ (format_int_0 10 (stamp now r.timestamp)
                ++ (codes "extr"
                    ++ (format_int_0 3 (pos (length r.payload)) ++ (r.payload ++ (0x04 ∷ [])))))))

module _ (now : ℤ) {function seq_no seconds : ℕ} {r : NbeRequest}
    (fits : Fits now function seq_no seconds r) where
  tail_of-IsByte : All IsByte r.payload → All IsByte (tail_of now r)
  tail_of-IsByte h =
      rw (fits.function_is, fits.seq_no_is, fits.stamp_is)
        (All-append IsByte (format_int_0 2 (pos function)) _ (number-IsByte 2 function) (
          All-append IsByte (format_int_0 2 (pos seq_no)) _ (number-IsByte 2 seq_no) (
            All-append IsByte (pin_field r.pin_code) _ (pin_field-IsByte r.pin_code fits.pin_ascii)
              (All-append IsByte (format_int_0 10 (pos seconds)) _ (number-IsByte 10 seconds) (
                All-append IsByte (codes "extr") _ (omega arith) (
                  All-append IsByte (format_int_0 3 (pos (length r.payload))) _
                    (number-IsByte 3 (length r.payload))
                    (All-append IsByte r.payload (0x04 ∷ []) h (omega arith))))))))

-- A packet of eighteen bytes of names, the mark and a ciphertext.
module _ (names cipher : Bytes) (eighteen : length names ≡ 18) where
  behind : drop 19 (names ++ (b'*' ∷ cipher)) ≡ cipher
  behind = rw (← append_assoc names (b'*' ∷ []) cipher) (
      drop_prefix 19 (names ++ (b'*' ∷ [])) cipher (omega (arith, length-append names (b'*' ∷ []))))

  decrypt-starred :
      (plain : Bytes) (key : PrivateKey)
      → to_bytes (exp (from_bytes cipher) key.secret key.modulus) ≡ plain
      → length plain ≡ 64
      → decrypt key (names ++ (b'*' ∷ cipher)) ≡ some (names ++ (b' ' ∷ plain))
  unfolding decrypt
  decrypt-starred plain key deciphered whole =
      rw (behind, deciphered, take_prefix 18 names (b'*' ∷ cipher) eighteen, whole)

  starred : cipher ≢ [] → is_encrypted (names ++ (b'*' ∷ cipher)) ≡ true
  starred some_byte = rw (drop_prefix 18 names (b'*' ∷ cipher) eighteen) (marked cipher some_byte)
    where
      marked : (s : Bytes) → s ≢ [] → starts_encrypted (b'*' ∷ s) ≡ true
      marked [] h = absurd (h refl)
      marked (c ∷ s) h = refl

  long_enough : cipher ≢ [] → ltb (length (names ++ (b'*' ∷ cipher))) 20 ≡ false
  long_enough some_byte =
      rw (length-append names (b'*' ∷ cipher), eighteen) (counted cipher some_byte)
    where
      counted : (s : Bytes) → s ≢ [] → ltb (18 + length (b'*' ∷ s)) 20 ≡ false
      counted [] h = absurd (h refl)
      counted (c ∷ s) h = ground arith

module _ {F : Type 0} (runtime : Runtime F) (mb : MockBoiler F) (now : ℤ)
    {function seq_no seconds : ℕ} {r : NbeRequest} (fits : Fits now function seq_no seconds r)
    {public : PublicKey} (pair : IsKeyPair public mb.rsa_private_key) {random : ℕ → Bytes}
    (fair : IsRandom random) (keyed : r.rsa_key ≡ some public) (bytes : All IsByte r.payload)
    (short : length r.payload ≤ 31) where
  rest_of : Bytes
  rest_of = random (64 - length (body now r))

  plain_of : Bytes
  plain_of = tail_of now r ++ rest_of

  plain-IsByte : All IsByte (2 ∷ plain_of)
  unfolding plain_of rest_of
  plain-IsByte = (
    omega arith,
    All-append IsByte (tail_of now r) (random (64 - length (body now r)))
        (tail_of-IsByte now fits bytes) (fair.bytes (64 - length (body now r))),
  )

  padded-plain : padded now fits random public keyed ≡ 2 ∷ plain_of
  unfolding plain_of rest_of body
  padded-plain = refl

  length-plain : length (2 ∷ plain_of) ≡ 64
  length-plain =
      ap length (sym padded-plain)
      ∙ omega (
        arith,
        length-append (body now r) (random (64 - length (body now r))),
        fair.length_is (64 - length (body now r)),
        length-body now fits,
      )

  names : Bytes
  names = pad_string 12 r.app_id ++ pad_string_0 6 r.controller_id

  length-names : length names ≡ 18
  unfolding names
  length-names = omega (
    arith,
    length-append (pad_string 12 r.app_id) (pad_string_0 6 r.controller_id),
    length-pad_with b' ' 12 r.app_id fits.app_ascii fits.app_short,
    length-pad_with b'0' 6 r.controller_id fits.controller_ascii fits.controller_short,
  )

  cipher_of : Bytes
  cipher_of = encrypt public (2 ∷ plain_of)

  deciphered :
      to_bytes (exp (from_bytes cipher_of) mb.rsa_private_key.secret mb.rsa_private_key.modulus)
      ≡ 2 ∷ plain_of
  unfolding cipher_of
  deciphered = encrypt-decrypts pair plain_of plain-IsByte length-plain

  cipher-ne-nil : cipher_of ≢ []
  unfolding cipher_of
  cipher-ne-nil = encrypt-ne-nil pair plain_of plain-IsByte length-plain

  packet-names : (pack now random r []).1 ≡ names ++ (b'*' ∷ cipher_of)
  unfolding names cipher_of
  packet-names =
      ap (λ p. p.1) (pack-encrypted now fits random public keyed short)
      ∙ rw (padded-plain)
          (sym (append_assoc (pad_string 12 r.app_id) (pad_string_0 6 r.controller_id) _))

  unpack-names : unpack (names ++ (b' ' ∷ (2 ∷ plain_of))) ≡ (ok (received now r), rest_of)
  unfolding names
  unpack-names =
      rw
        (append_assoc (pad_string 12 r.app_id) (pad_string_0 6 r.controller_id)
          (b' ' ∷ (2 ∷ plain_of)))
        (unfold plain_of body in unpack-body now fits b' ' rest_of)

  -- A request whose fields fit and whose payload has at most 31 bytes, packed with the public key
  -- of the boiler's key pair and any random padding, is handled by the simulated boiler exactly as
  -- the request itself is processed and answered: encryption, decryption and parsing lose nothing.
  pub handle_request-pack :
      handle_request runtime mb (pack now random r []).1
      ≡ send runtime (process_request mb (received now r))
  unfolding handle_request
  handle_request-pack = rw (
    packet-names,
    long_enough names cipher_of length-names cipher-ne-nil,
    starred names cipher_of length-names cipher-ne-nil,
    decrypt-starred names cipher_of length-names (2 ∷ plain_of) mb.rsa_private_key deciphered
        length-plain,
    unpack-names,
  )
