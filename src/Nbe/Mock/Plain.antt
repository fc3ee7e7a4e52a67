-- ===== src/Nbe/Mock/Plain.antt =====
-- A request without a key at the simulated boiler.
use boiler_mate.Prelude.{
  ℕ, ◌+◌, ◌≡◌, refl, sym, false, [], ◌∷◌, ◌++◌, Bytes, arith, length, ltb, none, some, append-nil,
  append_assoc, length-append, drop_prefix,
}
use boiler_mate.Prelude.Int.{ℤ}
use boiler_mate.Go.Format.{pad_string, pad_string_0, length-pad_with}
use boiler_mate.Nbe.Types.{Runtime}
use boiler_mate.Nbe.Action.{ok}
use boiler_mate.Nbe.Request.{NbeRequest, pack, unpack, body}
use boiler_mate.Nbe.Request.RoundTrip.{Fits, received, pack-plain, unpack-pack_request, length-body}
use boiler_mate.Nbe.Response
use boiler_mate.Nbe.Response.{NbeResponse}
use boiler_mate.Nbe.Mock.{
  packed, MockBoiler, starts_encrypted, is_encrypted, handle_plain, handle_request, process_request,
  send,
}

module _ {F : Type 0} (runtime : Runtime F) (mb : MockBoiler F) (now : ℤ)
    {function seq_no seconds : ℕ} {r : NbeRequest} (fits : Fits now function seq_no seconds r)
    (random : ℕ → Bytes) (plain : r.rsa_key ≡ none) where
  names : Bytes
  names = pad_string 12 r.app_id ++ pad_string_0 6 r.controller_id

  length-names : length names ≡ 18
  unfolding names
  length-names = omega (
    arith,
    length-append (pad_string 12 r.app_id) (pad_string_0 6 r.controller_id),
    length-pad_with b' ' 12 r.app_id fits.app_ascii fits.app_short,
    length-pad_with b'0' 6 r.controller_id fits.controller_ascii fits.controller_short,
  )

  packet-names : (pack now random r []).1 ≡ names ++ (b' ' ∷ body now r)
  unfolding names
  packet-names = rw (pack-plain now fits random plain) (
      sym (
        append_assoc (pad_string 12 r.app_id) (pad_string_0 6 r.controller_id) (b' ' ∷ body now r)))

  not_starred : (b : Bytes) → starts_encrypted (b' ' ∷ b) ≡ false
  not_starred [] = refl
  not_starred (c ∷ b) = refl

  pub length-pack : length (pack now random r []).1 ≡ 52 + length r.payload
  length-pack =
      rw packet-names
        (omega (arith, length-append names (b' ' ∷ body now r), length-names, length-body now fits))

  -- A request without a key whose fields fit is handled as the request itself is processed.
  pub handle_request-pack_plain :
      handle_request runtime mb (pack now random r []).1
      ≡ send runtime (process_request mb (received now r))
  unfolding handle_request handle_plain
  handle_request-pack_plain =
      let read : unpack (pack now random r []).1 ≡ (ok (received now r), []) =
        rw (← append-nil (pack now random r []).1)
          (unpack-pack_request now fits random plain []).1 in
      let bare : is_encrypted (pack now random r []).1 ≡ false =
        rw (packet-names, drop_prefix 18 names (b' ' ∷ body now r) length-names)
          (not_starred (body now r)) in
      let long : ltb (length (pack now random r []).1) 20 ≡ false = rw length-pack (ground arith) in
      rw (long, bare, read) refl

module _ {F : Type 0} (runtime : Runtime F) where
  -- An answer that is packed with no error is sent back.
  pub send-pack :
      (p : MockBoiler F × NbeResponse F) (packet : Bytes)
      → Response.pack runtime p.1 [] ≡ (ok tt, packet)
      → send runtime p ≡ (p.0, ok (some packet))
  unfolding send packed
  send-pack p packet done = rw done refl
