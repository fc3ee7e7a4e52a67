-- ===== src/Nbe/Client/Connect/Answers.antt =====
-- nbe/nbe.go: what holds of every response that reaches a callback, over any network.
use boiler_mate.Prelude.{Bytes, Option, some, none, Bool-cases, inl, inr, ◌==◌, bytes_eq}
use boiler_mate.Prelude.Int.{ℤ, negsuc, int_eq}
use boiler_mate.Go.Map.{lookup}
use boiler_mate.Nbe.Types.{Runtime}
use boiler_mate.Nbe.Action.{Outcome, ok, err, panic}
use boiler_mate.Nbe.Request.{NbeRequest}
use boiler_mate.Nbe.Response.{NbeResponse, unpack}
use boiler_mate.Nbe.Response.Keys.{Holding, KeyedOnce, unpack-KeysNe}
use boiler_mate.Nbe.Client.{Nbe, Call, send_async, deliver, take_response, handle}
use boiler_mate.Nbe.Client.Connect.{buffer_of, handled, over_network, exchange}

-- The response of a callback that is called.
abbrev pub CalledWith :
    {F C : Type 0} → (NbeResponse F → Type 0) → Option (C × NbeResponse F) → Type 0
CalledWith P none = Unit {0}
CalledWith P (some (cb, response)) = P response

module _ {F C : Type 0} (runtime : Runtime F) where
  deliver-CalledWith :
      (response : NbeResponse F) (waiting : Option C) (nbe : Nbe C)
      → KeyedOnce response
      → CalledWith KeyedOnce (deliver runtime response waiting nbe).1
  unfolding deliver
  deliver-CalledWith response none nbe keys = tt
  deliver-CalledWith response (some cb) nbe keys = keys

  take_response-CalledWith :
      (o : Outcome (NbeResponse F)) (nbe : Nbe C)
      → Holding KeyedOnce o
      → Holding (CalledWith KeyedOnce) (take_response runtime o nbe).1
  unfolding take_response
  take_response-CalledWith (err e) nbe keys = tt
  take_response-CalledWith panic nbe keys = tt
  take_response-CalledWith (ok response) nbe keys =
      elim (Bool-cases (response.seq_no == negsuc 0)) [
        | inl error_packet ↦ rw error_packet tt
        | inr no_error ↦
            rw no_error (deliver-CalledWith response (lookup response.seq_no nbe.queue) nbe keys)
      ]

  module _ {S : Type 0} (network : Bytes → S → S × Option Bytes) where
    handled-CalledWith :
        (packet : Option Bytes) (nbe : Nbe C) (s : S)
        → Holding (CalledWith KeyedOnce) (handled runtime network packet nbe s).2
    unfolding handled handle
    handled-CalledWith none nbe s = tt
    handled-CalledWith (some packet) nbe s =
        take_response-CalledWith (unpack runtime (buffer_of packet)).0 nbe
          (unpack-KeysNe runtime (buffer_of packet))

    over_network-CalledWith :
        (n : Outcome ℤ) (packet : Option Bytes) (nbe : Nbe C) (s : S)
        → Holding (CalledWith KeyedOnce) (over_network runtime network n packet nbe s).2
    unfolding over_network
    over_network-CalledWith (ok n) (some packet) nbe s =
        handled-CalledWith (network packet s).1 nbe (network packet s).0
    over_network-CalledWith (ok n) none nbe s = tt
    over_network-CalledWith (err e) packet nbe s = tt
    over_network-CalledWith panic packet nbe s = tt

    -- Whatever the network brings back, a callback is given a payload without a key twice.
    pub exchange-CalledWith :
        (call : Call) (request : NbeRequest) (cb : C) (nbe : Nbe C) (s : S)
        → Holding (CalledWith KeyedOnce) (exchange runtime network call request cb nbe s).2
    unfolding exchange
    exchange-CalledWith call request cb nbe s =
        let sent = send_async call request cb nbe in over_network-CalledWith sent.2 sent.1 sent.0 s
