-- ===== src/Nbe/Client/Listen.antt =====
-- nbe/nbe.go: the loop of listen over what its socket reads, where each packet is handled before the
-- next one is read.
pub mod Delivery
mod Examples
use boiler_mate.Prelude.{List, [], ◌∷◌, Bytes, Option, some, none, if◌then◌else◌, ◌==◌, bytes_eq}
use boiler_mate.Nbe.Types.{Runtime}
use boiler_mate.Nbe.Action.{Outcome, ok, err, panic}
use boiler_mate.Nbe.Response.{NbeResponse}
use boiler_mate.Nbe.Client.{Nbe, handle}
use boiler_mate.Nbe.Client.Connect.{buffer_of}

-- What ReadFrom gives: the sender's address and the packet, or an error.
abbrev pub Read : Type 0
Read = Option (Bytes × Bytes)

module _ {F C : Type 0} (runtime : Runtime F) where
  -- A round of the loop, for the host of the URL. Behind an error there is no address to compare.
  unfoldable pub listen_round : Bytes → Read → Nbe C → Nbe C × Outcome (Option (C × NbeResponse F))
  listen_round host none nbe = (nbe, panic)
  listen_round host (some (addr, packet)) nbe =
      let done = handle runtime (buffer_of packet) nbe in
      if addr == host then done else (nbe, ok none)

  -- The callbacks that were called, one more in front.
  abbrev called_first :
      C × NbeResponse F
      → Nbe C × Outcome (List (C × NbeResponse F))
      → Nbe C × Outcome (List (C × NbeResponse F))
  called_first c (nbe, ok cs) = (nbe, ok (c ∷ cs))
  called_first c (nbe, err e) = (nbe, err e)
  called_first c (nbe, panic) = (nbe, panic)

  abbrev after_round :
      Nbe C × Outcome (Option (C × NbeResponse F))
      → Nbe C × Outcome (List (C × NbeResponse F))
      → Nbe C × Outcome (List (C × NbeResponse F))
  after_round (nbe, ok none) rest = rest
  after_round (nbe, ok (some c)) rest = called_first c rest
  after_round (nbe, err e) rest = rest
  after_round (nbe, panic) rest = (nbe, panic)

  -- The callbacks that are called with the responses, in order; a panic ends the program.
  unfoldable pub listen : Bytes → List Read → Nbe C → Nbe C × Outcome (List (C × NbeResponse F))
  unfolding listen_round
  listen host [] nbe = (nbe, ok [])
  listen host (received ∷ reads) nbe =
      let done = listen_round host received nbe in
      let rest = listen host reads done.0 in after_round done rest
