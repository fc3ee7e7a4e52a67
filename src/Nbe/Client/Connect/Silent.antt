-- ===== src/Nbe/Client/Connect/Silent.antt =====
-- nbe/nbe.go: calls over a network that brings nothing back.
use boiler_mate.Prelude.{◌≡◌, Bytes, Option, some, none}
use boiler_mate.Nbe.Types.{Runtime}
use boiler_mate.Nbe.Action.{Outcome, ok, err, panic}
use boiler_mate.Nbe.Client.{ℤ, send_async, NbeResponse, Nbe, Call}
use boiler_mate.Nbe.Client.Connect.{
  discovery_request, receive, send, await, discovered, KeyFormat, connect,
}

-- An outcome that is an error or a panic.
abbrev pub Fails : {A : Type 0} → Outcome A → Type 0
Fails (ok a) = ⊥
Fails (err e) = Unit {0}
Fails panic = Unit {0}

module _ {F C S : Type 0} (runtime : Runtime F) (network : Bytes → S → S × Option Bytes)
    (silent : (packet : Bytes) (s : S) → (network packet s).1 ≡ none) where
  await-Fails :
      (n : Outcome ℤ) (packet : Option Bytes) (nbe : Nbe C) (s : S)
      → Fails (await runtime network n packet nbe s).2
  unfolding await receive
  await-Fails (ok n) (some packet) nbe s = rw (silent packet s) tt
  await-Fails (ok n) none nbe s = tt
  await-Fails (err e) packet nbe s = tt
  await-Fails panic packet nbe s = tt

  discovered-Fails :
      (format : KeyFormat) (call : Call) (cb : C) (o : Outcome (NbeResponse F)) (nbe : Nbe C)
      (s : S)
      → Fails o
      → Fails (discovered runtime network format call cb o nbe s).2
  unfolding discovered
  discovered-Fails format call cb (ok response) nbe s failed = absurd failed
  discovered-Fails format call cb (err e) nbe s failed = tt
  discovered-Fails format call cb panic nbe s failed = tt

  -- No client connects where nothing comes back.
  pub connect-Fails :
      (format : KeyFormat) (call call' : Call) (cb cb' : C) (nbe : Nbe C) (s : S)
      → Fails (connect runtime network format call call' cb cb' nbe s).2
  unfolding connect send
  connect-Fails format call call' cb cb' nbe s =
      let sent = send_async call (discovery_request nbe) cb nbe in
      discovered-Fails format call' cb' _ _ _ (await-Fails sent.2 sent.1 sent.0 s)
