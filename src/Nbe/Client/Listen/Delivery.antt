-- ===== src/Nbe/Client/Listen/Delivery.antt =====
-- nbe/nbe.go: what listen does with the packets of other hosts, and with an answer among them.
use boiler_mate.Prelude.{
  ℕ, ◌<◌, ◌≡◌, refl, ◌∙◌, List, [], ◌∷◌, ◌++◌, Bytes, All, some, none, ◌==◌, bytes_eq, false,
  if◌then◌else◌,
}
use boiler_mate.Prelude.Int.{ℤ, pos, int_eq}
use boiler_mate.Go.Map.{lookup, beq_refl}
use boiler_mate.Nbe.Types.{Runtime}
use boiler_mate.Nbe.Action.{ok}
use boiler_mate.Nbe.Request.{NbeRequest}
use boiler_mate.Nbe.Response.{NbeResponse, unpack}
use boiler_mate.Nbe.Client.{Nbe, Call, send_async, handle}
use boiler_mate.Nbe.Client.Delivery.{handle-send_async}
use boiler_mate.Nbe.Client.Connect.{buffer_of}
use boiler_mate.Nbe.Client.Listen.{Read, listen}

-- A packet of another host.
abbrev pub IsForeign : Bytes → Read → Type 0
IsForeign host none = ⊥
IsForeign host (some (addr, packet)) = (addr == host) ≡ false

module _ {F C : Type 0} (runtime : Runtime F) (host : Bytes) where
  listen-foreign :
      (others reads : List Read) (nbe : Nbe C)
      → All (IsForeign host) others
      → listen runtime host (others ++ reads) nbe ≡ listen runtime host reads nbe
  unfolding listen
  listen-foreign [] reads nbe foreign = refl
  listen-foreign (none ∷ others) reads nbe foreign = absurd foreign.0
  listen-foreign (some (addr, packet) ∷ others) reads nbe foreign =
      rw foreign.0 (listen-foreign others reads nbe foreign.1)

  listen_foreign_only :
      (others : List Read) (nbe : Nbe C)
      → All (IsForeign host) others
      → listen runtime host others nbe ≡ (nbe, ok [])
  unfolding listen
  listen_foreign_only [] nbe foreign = refl
  listen_foreign_only (none ∷ others) nbe foreign = absurd foreign.0
  listen_foreign_only (some (addr, packet) ∷ others) nbe foreign =
      rw foreign.0 (listen_foreign_only others nbe foreign.1)

  -- From a number below 100: when a send succeeds and among the packets that listen reads there is
  -- one from the boiler's host with a response of the number that the send returned, all others
  -- being from other hosts, however many come before and after it, then the send's callback is
  -- called with the response, no other call is made, and the queue is as it was before the send
  -- without that number.
  pub listen-send_async :
      (call : Call) (request : NbeRequest) (cb : C) (nbe : Nbe C) (n : ℕ) (q : ℤ)
      (packet rest : Bytes) (response : NbeResponse F) (others others' : List Read)
      → n < 100
      → nbe.seq_no ≡ pos n
      → (send_async call request cb nbe).2 ≡ ok q
      → unpack runtime (buffer_of packet) ≡ (ok response, rest)
      → response.seq_no ≡ q
      → All (IsForeign host) others
      → All (IsForeign host) others'
      → (nbe' : Nbe C) × (listen runtime host
            (others ++ (some (host, packet) ∷ others'))
            (send_async call request cb nbe).0
          ≡ (nbe', ok ((cb, response) ∷ [])))
        × ((j : ℤ) → lookup j nbe'.queue ≡ (if q == j then none else lookup j nbe.queue))
  unfolding listen
  listen-send_async call request cb nbe n q packet rest response others others' small at sent read
        same foreign foreign' =
      let waiting = (send_async call request cb nbe).0 in
      let (called, queue) =
        handle-send_async runtime call request cb nbe n q (buffer_of packet) rest response small at
          sent read same in
      let nbe' = (handle runtime (buffer_of packet) waiting).0 in
      (
        nbe',
        listen-foreign others (some (host, packet) ∷ others') waiting foreign
            ∙ rw (beq_refl host, called, listen_foreign_only others' nbe' foreign') refl,
        queue,
      )
