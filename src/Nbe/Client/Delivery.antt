-- ===== src/Nbe/Client/Delivery.antt =====
-- Which callback a response reaches.
use boiler_mate.Prelude.{
  ◌%◌, ◌+◌, ◌<◌, ◌⊎◌, ℕ, ◌≡◌, refl, ◌∙◌, sym, true, false, Bytes, some, none, arith, ◌==◌,
  if◌then◌else◌, Bool-cases, inl, inr,
}
use boiler_mate.Prelude.Int.{ℤ, pos, negsuc, int_eq}
use boiler_mate.Go.Map.{Map, lookup, lookup-delete, beq_refl}
use boiler_mate.Nbe.Types.{Runtime}
use boiler_mate.Nbe.Action.{ok, err, panic, Error}
use boiler_mate.Nbe.Request.{NbeRequest}
use boiler_mate.Nbe.Response.{NbeResponse, unpack}
use boiler_mate.Nbe.Client.{Nbe, Call, Sent, next_seq, send_async, handle}
use boiler_mate.Nbe.Client.Sequence.{IsQueued, send_async-IsQueued, next_seq-pos}

module _ {F : Type 0} (runtime : Runtime F) {C : Type 0} where
  -- A response whose number is waited for: its callback is called with it, once, and its entry
  -- is taken out of the queue; every other entry stays.
  pub handle-queued :
      (buffer rest : Bytes) (response : NbeResponse F) (cb : C) (nbe : Nbe C)
      → unpack runtime buffer ≡ (ok response, rest)
      → (response.seq_no == negsuc 0) ≡ false
      → lookup response.seq_no nbe.queue ≡ some cb
      → ((handle runtime buffer nbe).1 ≡ ok (some (cb, response)))
        × ((j : ℤ)
            → lookup j (handle runtime buffer nbe).0.queue
              ≡ (if response.seq_no == j then none else lookup j nbe.queue))
  unfolding handle
  handle-queued buffer rest response cb nbe read no_error waited =
      rw (read, no_error, waited) (refl, λ j. lookup-delete response.seq_no j nbe.queue)

  -- Everything else changes nothing: bytes that are no frame, an error packet, and a response
  -- whose number nobody waits for.
  pub handle-ignored :
      (buffer rest : Bytes) (response : NbeResponse F) (nbe : Nbe C)
      → unpack runtime buffer ≡ (ok response, rest)
      → ((response.seq_no == negsuc 0) ≡ true) ⊎ (lookup response.seq_no nbe.queue ≡ none)
      → handle runtime buffer nbe ≡ (nbe, ok none)
  unfolding handle
  handle-ignored buffer rest response nbe read why = elim why [
    | inl error_packet ↦ rw (read, error_packet)
    | inr nobody ↦ elim (Bool-cases (response.seq_no == negsuc 0)) [
      | inl error_packet ↦ rw (read, error_packet)
      | inr no_error ↦ rw (read, no_error, nobody)
    ]
  ]

  -- Bytes that are no frame change nothing, and a frame that panics is passed on.
  pub handle-unreadable :
      (buffer : Bytes) (nbe : Nbe C) (e : Error)
      → (unpack runtime buffer).0 ≡ err e
      → handle runtime buffer nbe ≡ (nbe, ok none)
  unfolding handle
  handle-unreadable buffer nbe e bad = rw bad

  pub handle-panic :
      (buffer : Bytes) (nbe : Nbe C)
      → (unpack runtime buffer).0 ≡ panic
      → handle runtime buffer nbe ≡ (nbe, panic)
  unfolding handle
  handle-panic buffer nbe bad = rw bad

ok-injective : {a b : ℤ} → ok a ≡ ok b → a ≡ b
ok-injective e = ground arith

module _ {C : Type 0} where
  IsQueued-ok :
      (seq_no : ℤ) (cb : C) (old : Map ℤ C) (s : Sent C) (q : ℤ)
      → IsQueued seq_no cb old s
      → s.2 ≡ ok q
      → (q ≡ seq_no)
        × ((j : ℤ) → lookup j s.0.queue ≡ (if seq_no == j then some cb else lookup j old))
  IsQueued-ok seq_no cb old (nbe, packet, ok r) q h e = (sym (ok-injective e) ∙ h.0, h.2)
  IsQueued-ok seq_no cb old (nbe, packet, err x) q h e = cc e
  IsQueued-ok seq_no cb old (nbe, packet, panic) q h e = cc e

module _ {F : Type 0} (runtime : Runtime F) {C : Type 0} where
  -- From a number below 100: when a send succeeds and the next packet is a response with the
  -- number that it returned, then that send's callback is called with the response, and the queue
  -- is as it was before the send without that number.
  pub handle-send_async :
      (call : Call) (request : NbeRequest) (cb : C) (nbe : Nbe C) (n : ℕ) (q : ℤ)
      (buffer rest : Bytes) (response : NbeResponse F)
      → n < 100
      → nbe.seq_no ≡ pos n
      → (send_async call request cb nbe).2 ≡ ok q
      → unpack runtime buffer ≡ (ok response, rest)
      → response.seq_no ≡ q
      → ((handle runtime buffer (send_async call request cb nbe).0).1 ≡ ok (some (cb, response)))
        × ((j : ℤ)
            → lookup j (handle runtime buffer (send_async call request cb nbe).0).0.queue
              ≡ (if q == j then none else lookup j nbe.queue))
  handle-send_async call request cb nbe n q buffer rest response h at sent read same =
      let after = (send_async call request cb nbe).0 in
      let (number, queue) =
        IsQueued-ok (next_seq nbe.seq_no) cb nbe.queue (send_async call request cb nbe) q
          (send_async-IsQueued call request cb nbe) sent in
      let small : q ≡ pos ((n + 1) % 100) = number ∙ rw at (next_seq-pos n h) in
      let waited : lookup response.seq_no after.queue ≡ some cb =
        rw (same, queue q, number, beq_refl (next_seq nbe.seq_no)) in
      let (called, left) =
        handle-queued runtime buffer rest response cb after read (rw (same, small)) waited in
      (
        called,
        λ j.
            left j
            ∙ rw (same, queue j, number)
                (elim (Bool-cases (next_seq nbe.seq_no == j)) [
                  | inl here ↦ rw here
                  | inr other ↦ rw other
                ]),
      )
