-- ===== src/Nbe/Request/Encryption.antt =====
-- A request that is packed with a key: the size of what is encrypted.
use boiler_mate.Prelude.{
  ℕ, ◌-◌, ◌≤◌, ◌≡◌, [], ◌∷◌, ◌++◌, Bytes, some, arith, leb, le→leb, if◌then◌else◌, length,
  append_assoc, inl, inr, Bool-cases,
}
use boiler_mate.Prelude.Int.{ℤ}
use boiler_mate.Go.Format.{pad_string, pad_string_0}
use boiler_mate.Nbe.Action.{ok, panic}
use boiler_mate.Nbe.Helpers.{write_raw_bytes}
use boiler_mate.Nbe.Request.{NbeRequest, PublicKey, body, encrypt, pack, write_body}
use boiler_mate.Nbe.Request.RoundTrip.{Fits, validate-ok, length-body}

module _ (now : ℤ) {function seq_no seconds : ℕ} {r : NbeRequest}
    (fits : Fits now function seq_no seconds r) (random : ℕ → Bytes) (key : PublicKey)
    (keyed : r.rsa_key ≡ some key) where
  -- The body with the padding that fills 64 bytes.
  abbrev pub padded : Bytes
  padded = body now r ++ random (64 - length (body now r))

  -- A request whose payload has at most 31 bytes is sent encrypted.
  pub pack-encrypted :
      length r.payload ≤ 31
      → pack now random r [] ≡ (
        ok tt,
        pad_string 12 r.app_id ++ (pad_string_0 6 r.controller_id ++ (b'*' ∷ encrypt key padded)),
      )
  unfolding pack write_raw_bytes
  pack-encrypted short = rw (validate-ok now fits) (
      simp keyed (
        rw (le→leb (length (body now r)) 64 (omega (arith, length-body now fits)), write_body)
          (simp append_assoc)))

  body_short : leb (length (body now r)) 64 ≡ leb (length r.payload) 31
  body_short = rw (length-body now fits) (ground arith)

  -- With a key the packing of a request whose fields fit panics at a payload of more than 31 bytes,
  -- where the padding's length is negative, and succeeds at any other.
  pub pack-panic : (pack now random r []).0 ≡ (if leb (length r.payload) 31 then ok tt else panic)
  unfolding pack write_raw_bytes
  pack-panic = rw (validate-ok now fits) (
      simp keyed (
        rw (body_short, write_body)
          (elim (Bool-cases (leb (length r.payload) 31)) [
            | inl short ↦ rw short
            | inr long ↦ rw long
          ])))
