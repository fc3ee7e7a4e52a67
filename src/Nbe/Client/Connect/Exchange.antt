-- ===== src/Nbe/Client/Connect/Exchange.antt =====
-- nbe/nbe.go: a call of Send whose response comes back in time.
use boiler_mate.Prelude.{
  ℕ, zero, suc, ◌-◌, ◌≤◌, ◌≡◌, refl, ◌∙◌, ap, true, false, [], ◌∷◌, ◌++◌, Bytes, arith, length,
  take, replicate, some, Option, ◌==◌,
}
use boiler_mate.Prelude.Int.{pos, negsuc, int_eq}
use boiler_mate.Go.Map.{lookup, insert, delete, lookup-insert, beq_refl}
use boiler_mate.Nbe.Types.{Runtime}
use boiler_mate.Nbe.Action.{ok}
use boiler_mate.Nbe.Request
use boiler_mate.Nbe.Request.{NbeRequest}
use boiler_mate.Nbe.Response.{NbeResponse, unpack}
use boiler_mate.Nbe.Client.{ℤ, suc, Nbe, Call, next_seq, send_async, handle}
use boiler_mate.Nbe.Client.Connect.{buffer_of, send, exchange}

take-append :
    (n : ℕ) (xs ys : Bytes) → length xs ≤ n → take n (xs ++ ys) ≡ xs ++ take (n - length xs) ys
take-append n [] ys h = ap (λ k. take k ys) (let e : n ≡ n - 0 = omega arith in e)
take-append zero (x ∷ xs) ys h = absurd (omega arith)
take-append (suc n) (x ∷ xs) ys h = ap (◌∷◌ x) (
    take-append n xs ys (omega arith)
    ∙ ap (λ k. xs ++ take k ys)
        (let e : n - length xs ≡ suc n - suc (length xs) = omega arith in e))

-- A packet of at most 1024 bytes stands whole in the buffer.
pub buffer_of-whole :
    (packet : Bytes) → length packet ≤ 1024 → (rest : Bytes) × (buffer_of packet ≡ packet ++ rest)
unfolding buffer_of
buffer_of-whole packet short = (
  take (1024 - length packet) (replicate 1024 0),
  take-append 1024 packet (replicate 1024 0) short,
)

-- The request as it is sent, under the next number.
abbrev pub numbered : {C : Type 0} → NbeRequest → Nbe C → NbeRequest
numbered request nbe = record request { seq_no = next_seq nbe.seq_no }

-- A call ends with the response: Send returns it, and a callback of SendAsync is given it.
abbrev pub Answered :
    {C F S : Type 0}
    → Runtime F
    → (Bytes → S → S × Option Bytes)
    → Call
    → NbeRequest
    → C
    → Nbe C
    → S
    → Nbe C
    → S
    → NbeResponse F
    → Type 0
Answered runtime network call request cb nbe s nbe' s' response =
    (send runtime network call request cb nbe s ≡ (nbe', s', ok response))
    × (exchange runtime network call request cb nbe s ≡ (nbe', s', ok (some (cb, response))))

module _ {C : Type 0} (call : Call) (request : NbeRequest) (cb : C) (nbe : Nbe C) {m : ℕ}
    (numbered_is : next_seq nbe.seq_no ≡ pos m)
    (is_packed : (Request.pack call.now call.random (numbered request nbe) []).0 ≡ ok tt)
    (resolves : call.resolves ≡ true) (written : call.written ≡ true) where
  -- The packet that goes out.
  abbrev pub packet_of : Bytes
  packet_of = (Request.pack call.now call.random (numbered request nbe) []).1

  pub send_async-packed : send_async call request cb nbe ≡ (
    record nbe { seq_no = next_seq nbe.seq_no; queue = insert (next_seq nbe.seq_no) cb nbe.queue },
    some packet_of,
    ok (next_seq nbe.seq_no),
  )
  unfolding send_async
  send_async-packed = rw (resolves, is_packed, written) refl

  -- When the network brings back a packet with a response of the request's number, that response
  -- is returned, or handed to the callback, and the queue is as before without the number.
  pub send-Answered :
      {F S : Type 0} (runtime : Runtime F) (network : Bytes → S → S × Option Bytes) (s s' : S)
      (answer rest : Bytes) (response : NbeResponse F)
      → network packet_of s ≡ (s', some answer)
      → unpack runtime (buffer_of answer) ≡ (ok response, rest)
      → response.seq_no ≡ next_seq nbe.seq_no
      → Answered runtime network call request cb nbe s
          (record nbe {
            seq_no = next_seq nbe.seq_no;
            queue = delete (next_seq nbe.seq_no) (insert (next_seq nbe.seq_no) cb nbe.queue);
          })
          s'
          response
  unfolding send exchange handle
  send-Answered runtime network s s' answer rest response answered read same =
      let number : response.seq_no ≡ pos m = same ∙ numbered_is in
      let waited : lookup response.seq_no (insert (next_seq nbe.seq_no) cb nbe.queue) ≡ some cb =
        rw same (
          lookup-insert (next_seq nbe.seq_no) (next_seq nbe.seq_no) cb nbe.queue
          ∙ rw (beq_refl (next_seq nbe.seq_no)) refl) in
      let after : ℤ → Nbe C = λ k. record nbe {
        seq_no = next_seq nbe.seq_no;
        queue = delete k (insert (next_seq nbe.seq_no) cb nbe.queue);
      } in
      rw (send_async-packed, answered, read)
        (let no_error : (response.seq_no == negsuc 0) ≡ false = rw number refl in
          rw (no_error, waited)
            (let mine : (response.seq_no == next_seq nbe.seq_no) ≡ true =
                rw same (beq_refl (next_seq nbe.seq_no)) in
              rw mine (
                ap (λ k. (after k, s', ok response)) same,
                ap (λ k. (after k, s', ok (some (cb, response)))) same,
              )))
