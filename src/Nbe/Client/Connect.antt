-- ===== src/Nbe/Client/Connect.antt =====
-- nbe/nbe.go: the calls that wait for their response, and the connecting of a client. The network
-- is a function of its state: what comes back from the host within three seconds of a packet.
pub mod Exchange
pub mod Boiler
pub mod Ready
pub mod Plain
pub mod Discovered
pub mod Fresh
pub mod Command
pub mod Silent
pub mod Answers
mod Examples
use boiler_mate.Prelude.{
  ℕ, List, [], ◌∷◌, ◌++◌, Bytes, codes, Option, none, some, if◌then◌else◌, length, take, replicate,
  ◌==◌, bytes_eq,
}
use boiler_mate.Prelude.Int.{ℤ, pos, int_eq}
use boiler_mate.Go.Map.{lookup}
use boiler_mate.Nbe.Types.{
  Runtime, Function, Scalar, text, int64, rounded, Value, scalar, range, discovery_function,
  get_setup_function,
}
use boiler_mate.Nbe.Action.{Outcome, ok, err, panic, timeout, key_rejected}
use boiler_mate.Nbe.Payload.{show_value}
use boiler_mate.Nbe.Request.{NbeRequest, PublicKey, zero_time}
use boiler_mate.Nbe.Response.{NbeResponse}
use boiler_mate.Nbe.Client.{
  Nbe, Call, Sent, random_string, send_async, handle, get_request, set_request,
}

-- The buffer that `listen` hands to `handle`: 1024 bytes, zero behind the packet.
unfoldable pub buffer_of : Bytes → Bytes
buffer_of packet = take 1024 (packet ++ replicate 1024 0)

-- What `x509.ParsePKIXPublicKey` returns without an error.
pub data PkixKey : Type 0 where
  rsa_key : PublicKey → PkixKey
  other_key : PkixKey

-- `base64.StdEncoding.DecodeString` and `x509.ParsePKIXPublicKey`; `none` is an error.
pub record KeyFormat : Type 0 where
  pub decode_string : Bytes → Option Bytes
  pub parse_pkix_public_key : Bytes → Option PkixKey

-- `pub.(*rsa.PublicKey)`.
abbrev as_rsa : Option PkixKey → Outcome PublicKey
as_rsa none = err key_rejected
as_rsa (some (rsa_key key)) = ok key
as_rsa (some other_key) = panic

-- `rsaKeyFromBase64`.
unfoldable pub rsa_key_from_base64 : KeyFormat → Bytes → Outcome PublicKey
rsa_key_from_base64 format key = elim (format.decode_string key) [
  | none ↦ err key_rejected
  | some b ↦ as_rsa (format.parse_pkix_public_key b)
]

-- `NewNBE` up to the call of `connect`, on the numbers that `rand.Int` draws and the parts of the
-- URL.
unfoldable pub new_nbe : {C : Type 0} → List ℕ → List ℕ → Bytes → Bytes → Bytes → Nbe C
unfolding random_string
new_nbe app_draws controller_draws username password hostname = record {
  app_id = random_string app_draws;
  controller_id = random_string controller_draws;
  serial = username;
  ip_address = hostname;
  seq_no = pos 0;
  pin_code = password;
  rsa_key = none;
  queue = [];
}

-- `response.Payload["rsa_key"].(string)` and its parsing: a missing key or a number panics.
unfoldable pub key_of : {F : Type 0} → KeyFormat → Option (Value F) → Outcome PublicKey
unfolding rsa_key_from_base64
key_of format (some (scalar (text key))) = rsa_key_from_base64 format key
key_of format (some (scalar (int64 z))) = panic
key_of format (some (scalar (rounded x))) = panic
key_of format (some (range min max default decimals)) = panic
key_of format none = panic

unfoldable pub key_in : {F : Type 0} → KeyFormat → Outcome (NbeResponse F) → Outcome PublicKey
unfolding key_of
key_in format (ok response) = key_of format (lookup (codes "rsa_key") response.payload)
key_in format (err e) = err e
key_in format panic = panic

-- `fmt.Sprintf("%v", …)` of an entry of the payload.
abbrev pub show_entry : {F : Type 0} → Runtime F → Option (Value F) → Bytes
show_entry runtime none = codes "<nil>"
show_entry runtime (some v) = show_value runtime v

unfoldable pub discovery_request : {C : Type 0} → Nbe C → NbeRequest
discovery_request nbe = record {
  app_id = nbe.app_id;
  controller_id = nbe.controller_id;
  rsa_key = none;
  function = discovery_function;
  seq_no = pos 0;
  pin_code = [];
  timestamp = zero_time;
  payload = codes "NBE Discovery";
}

module _ {F C S : Type 0} (runtime : Runtime F) (network : Bytes → S → S × Option Bytes) where
  -- The callback of `Send` has put the response into its channel if it is the one of this number.
  on_channel :
      ℤ → Outcome (Option (C × NbeResponse F)) → Nbe C → S → Nbe C × S × Outcome (NbeResponse F)
  on_channel n (ok (some (cb, response))) nbe s =
      if response.seq_no == n then (nbe, s, ok response) else (nbe, s, err timeout)
  on_channel n (ok none) nbe s = (nbe, s, err timeout)
  on_channel n (err e) nbe s = (nbe, s, err e)
  on_channel n panic nbe s = (nbe, s, panic)

  receive : ℤ → Option Bytes → Nbe C → S → Nbe C × S × Outcome (NbeResponse F)
  unfolding on_channel
  receive n none nbe s = (nbe, s, err timeout)
  receive n (some packet) nbe s =
      let done = handle runtime (buffer_of packet) nbe in on_channel n done.1 done.0 s

  await : Outcome ℤ → Option Bytes → Nbe C → S → Nbe C × S × Outcome (NbeResponse F)
  unfolding receive
  await (ok n) (some packet) nbe s =
      let answer = network packet s in receive n answer.1 nbe answer.0
  await (ok n) none nbe s = (nbe, s, err timeout)
  await (err e) packet nbe s = (nbe, s, err e)
  await panic packet nbe s = (nbe, s, panic)

  -- `Send`, whose callback is `cb`.
  unfoldable pub send : Call → NbeRequest → C → Nbe C → S → Nbe C × S × Outcome (NbeResponse F)
  unfolding await
  send call request cb nbe s =
      let sent = send_async call request cb nbe in await sent.2 sent.1 sent.0 s

  -- What `handle` does with the packet that comes back, if one does.
  handled : Option Bytes → Nbe C → S → Nbe C × S × Outcome (Option (C × NbeResponse F))
  handled none nbe s = (nbe, s, ok none)
  handled (some packet) nbe s =
      let done = handle runtime (buffer_of packet) nbe in (done.0, s, done.1)

  over_network :
      Outcome ℤ → Option Bytes → Nbe C → S → Nbe C × S × Outcome (Option (C × NbeResponse F))
  unfolding handled
  over_network (ok n) (some packet) nbe s =
      let answer = network packet s in handled answer.1 nbe answer.0
  over_network (ok n) none nbe s = (nbe, s, ok none)
  over_network (err e) packet nbe s = (nbe, s, ok none)
  over_network panic packet nbe s = (nbe, s, panic)

  -- `SendAsync`, whose error is only logged, and `handle` for the packet that its packet brings
  -- back.
  unfoldable pub exchange :
      Call → NbeRequest → C → Nbe C → S → Nbe C × S × Outcome (Option (C × NbeResponse F))
  unfolding over_network
  exchange call request cb nbe s =
      let sent = send_async call request cb nbe in over_network sent.2 sent.1 sent.0 s

  -- `Get`.
  unfoldable pub get : Call → Function → Bytes → C → Nbe C → S → Nbe C × S × Outcome (NbeResponse F)
  unfolding send get_request
  get call function path cb nbe s = send call (get_request nbe function path) cb nbe s

  -- `Set`.
  unfoldable pub set : Call → Bytes → Bytes → C → Nbe C → S → Nbe C × S × Outcome (NbeResponse F)
  unfolding send set_request
  set call path value cb nbe s = send call (set_request nbe path value) cb nbe s

  -- `getRSAKey`.
  unfoldable pub get_rsa_key : KeyFormat → Call → C → Nbe C → S → Nbe C × S × Outcome PublicKey
  unfolding get key_in
  get_rsa_key format call cb nbe s = elim nbe.rsa_key [
    | some key ↦ (nbe, s, ok key)
    | none ↦
        (let done = get call get_setup_function (codes "misc.rsa_key") cb nbe s in
          (done.0, done.1, key_in format done.2))
  ]

  keep_key : Outcome PublicKey → Nbe C → S → Nbe C × S × Outcome (Unit {0})
  keep_key (ok key) nbe s = (record nbe { rsa_key = some key }, s, ok tt)
  keep_key (err e) nbe s = (nbe, s, err e)
  keep_key panic nbe s = (nbe, s, panic)

  -- `connect` behind the first response.
  discovered :
      KeyFormat → Call → C → Outcome (NbeResponse F) → Nbe C → S → Nbe C × S × Outcome (Unit {0})
  unfolding get_rsa_key keep_key
  discovered format call cb (ok response) nbe s =
      let named = record nbe {
        serial = show_entry runtime (lookup (codes "serial") response.payload);
      } in
      let done = get_rsa_key format call cb named s in keep_key done.2 done.0 done.1
  discovered format call cb (err e) nbe s = (nbe, s, err e)
  discovered format call cb panic nbe s = (nbe, s, panic)

  -- `connect`, with what the network does during each of its two calls.
  unfoldable pub connect :
      KeyFormat → Call → Call → C → C → Nbe C → S → Nbe C × S × Outcome (Unit {0})
  unfolding send discovery_request discovered
  connect format call call' cb cb' nbe s =
      let done = send call (discovery_request nbe) cb nbe s in
      discovered format call' cb' done.2 done.0 done.1
