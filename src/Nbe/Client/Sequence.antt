-- ===== src/Nbe/Client/Sequence.antt =====
-- The numbers that requests are sent under, and the queue that they leave.
use boiler_mate.Prelude.{
  ℕ, suc, ◌+◌, ◌%◌, ◌<◌, ◌≤◌, ◌≡◌, ◌≢◌, refl, ◌∙◌, ap, List, [], ◌∷◌, Bytes, some, none, arith,
  length, ◌==◌, if◌then◌else◌, Bool-cases, inl, inr, ◌⊎◌,
}
use boiler_mate.Prelude.Int.{ℤ, pos, int_eq}
use boiler_mate.Go.Map.{Map, lookup, insert, delete, lookup-insert, lookup-delete}
use boiler_mate.Nbe.Action.{Outcome, ok, err, panic}
use boiler_mate.Nbe.Request.{NbeRequest}
use boiler_mate.Nbe.Client.{packed, Nbe, Call, Sent, next_seq, send_async}

-- The number wraps from 99 to 0.
pub next_seq-pos : (n : ℕ) → n < 100 → next_seq (pos n) ≡ pos ((n + 1) % 100)
unfolding next_seq
next_seq-pos n h = ground arith

module _ {C : Type 0} where
  packed-seq_no :
      (call : Call) (seq_no : ℤ) (cb : C) (nbe : Nbe C) (o : Outcome (Unit {0})) (packet : Bytes)
      → (packed call seq_no cb nbe o packet).0.seq_no ≡ nbe.seq_no
  unfolding packed
  packed-seq_no call seq_no cb nbe (ok _) packet = elim (Bool-cases call.written) [
    | inl sent ↦ rw sent
    | inr lost ↦ rw lost
  ]
  packed-seq_no call seq_no cb nbe (err e) packet = refl
  packed-seq_no call seq_no cb nbe panic packet = refl

  -- Every send, failed or not, takes the next number.
  pub send_async-seq_no :
      (call : Call) (request : NbeRequest) (cb : C) (nbe : Nbe C)
      → (send_async call request cb nbe).0.seq_no ≡ next_seq nbe.seq_no
  unfolding send_async
  send_async-seq_no call request cb nbe = elim (Bool-cases call.resolves) [
    | inl found ↦ rw found (packed-seq_no call (next_seq nbe.seq_no) cb _ _ _)
    | inr unknown ↦ rw unknown
  ]

  -- Requests sent one after another, whether they succeed or fail.
  unfoldable pub send_all : List (Call × NbeRequest × C) → Nbe C → Nbe C
  send_all [] nbe = nbe
  send_all ((call, request, cb) ∷ sends) nbe = send_all sends (send_async call request cb nbe).0

  -- From a number below 100 the k-th send is numbered k further, modulo 100.
  pub send_all-seq_no :
      (sends : List (Call × NbeRequest × C)) (nbe : Nbe C) (n : ℕ)
      → n < 100
      → nbe.seq_no ≡ pos n
      → (send_all sends nbe).seq_no ≡ pos ((n + length sends) % 100)
  unfolding send_all
  send_all-seq_no [] nbe n h e = e ∙ ap pos (let q : n ≡ (n + 0) % 100 = omega arith in q)
  send_all-seq_no ((call, request, cb) ∷ sends) nbe n h e =
      send_all-seq_no sends (send_async call request cb nbe).0 ((n + 1) % 100) (omega arith)
        (send_async-seq_no call request cb nbe ∙ rw e (next_seq-pos n h))
      ∙ ap pos (
          let q : ((n + 1) % 100 + length sends) % 100 ≡ (n + suc (length sends)) % 100 =
            omega arith in
          q)

  -- Of any 100 consecutive sends no two have the same number: after at least one and fewer than
  -- 100 further sends, failed ones included, the next number is another one.
  pub send_all-next_seq-ne :
      (sends : List (Call × NbeRequest × C)) (nbe : Nbe C) (n : ℕ)
      → n < 100
      → nbe.seq_no ≡ pos n
      → 1 ≤ length sends
      → length sends < 100
      → next_seq (send_all sends nbe).seq_no ≢ next_seq nbe.seq_no
  send_all-next_seq-ne sends nbe n h e some_sends few =
      rw
        (
          send_all-seq_no sends nbe n h e,
          e,
          next_seq-pos n h,
          next_seq-pos ((n + length sends) % 100) (omega arith),
        )
        (λ same. ground arith)

  -- What a send leaves: on success a packet, and the callback under the number that is returned;
  -- on failure no packet, and the queue as it was or without that number.
  abbrev pub IsQueued : ℤ → C → Map ℤ C → Sent C → Type 0
  IsQueued seq_no cb old (nbe, packet, ok q) =
      (q ≡ seq_no)
      × (packet ≢ none)
      × ((j : ℤ) → lookup j nbe.queue ≡ (if seq_no == j then some cb else lookup j old))
  IsQueued seq_no cb old (nbe, packet, _) =
      (packet ≡ none)
      × ((nbe.queue ≡ old)
          ⊎ ((j : ℤ) → lookup j nbe.queue ≡ (if seq_no == j then none else lookup j old)))

  delete-insert :
      (k j : ℤ) (cb : C) (m : Map ℤ C)
      → lookup j (delete k (insert k cb m)) ≡ (if k == j then none else lookup j m)
  delete-insert k j cb m = elim (Bool-cases (k == j)) [
    | inl same ↦ rw (lookup-delete k j (insert k cb m), same)
    | inr other ↦ rw (lookup-delete k j (insert k cb m), other, lookup-insert k j cb m, other)
  ]

  packed-IsQueued :
      (call : Call) (seq_no : ℤ) (cb : C) (nbe : Nbe C) (o : Outcome (Unit {0})) (packet : Bytes)
      → IsQueued seq_no cb nbe.queue (packed call seq_no cb nbe o packet)
  unfolding packed
  packed-IsQueued call seq_no cb nbe (ok _) packet = elim (Bool-cases call.written) [
    | inl sent ↦ rw sent (refl, (λ h. cc h), λ j. lookup-insert seq_no j cb nbe.queue)
    | inr lost ↦ rw lost (refl, inr (λ j. delete-insert seq_no j cb nbe.queue))
  ]
  packed-IsQueued call seq_no cb nbe (err e) packet = (refl, inl refl)
  packed-IsQueued call seq_no cb nbe panic packet = (refl, inl refl)

  -- Every branch of SendAsync leaves the queue in one of these ways, under the next number: on
  -- success a packet is written, that number is returned and its callback is queued with every
  -- other entry kept; on failure no packet is written and the queue is as before or without that
  -- number.
  pub send_async-IsQueued :
      (call : Call) (request : NbeRequest) (cb : C) (nbe : Nbe C)
      → IsQueued (next_seq nbe.seq_no) cb nbe.queue (send_async call request cb nbe)
  unfolding send_async
  send_async-IsQueued call request cb nbe = elim (Bool-cases call.resolves) [
    | inl found ↦ rw found (packed-IsQueued call (next_seq nbe.seq_no) cb _ _ _)
    | inr unknown ↦ rw unknown (refl, inl refl)
  ]
