-- ===== src/Nbe/Client.antt =====
-- nbe/nbe.go: the client of a boiler. A callback is a value of a type `C`; to call it is to hand
-- it out with the response. Each function is one run of the Go function with no other goroutine
-- in between.
pub mod Listen
pub mod Sequence
pub mod Delivery
pub mod Connect
pub mod Threads
use boiler_mate.Prelude.{
  ℕ, zero, suc, ◌+◌, ◌<◌, Bool, true, false, List, [], ◌∷◌, ◌++◌, Bytes, codes, Option, some, none,
  ltb, if◌then◌else◌, map, ◌==◌,
}
use boiler_mate.Prelude.Int.{ℤ, pos, negsuc, int_eq, to_int8}
use boiler_mate.Go.Map.{Map, lookup, insert, delete}
use boiler_mate.Nbe.Types.{
  Runtime, Function, Scalar, text, Value, scalar, discovery_function, get_setup_function,
  set_setup_function,
}
use boiler_mate.Nbe.Action.{
  Error, unresolved, unsent, timeout, key_rejected, Outcome, ok, err, panic,
}
use boiler_mate.Nbe.Payload.{show_value}
use boiler_mate.Nbe.Request.{NbeRequest, PublicKey, zero_time}
use boiler_mate.Nbe.Request
use boiler_mate.Nbe.Response.{NbeResponse}
use boiler_mate.Nbe.Response

-- `randomString`, on the numbers below 25 that `rand.Int` draws.
unfoldable pub random_string : List ℕ → Bytes
random_string draws = map (λ n. 65 + n) draws

-- The fields of `NBE` that the code uses.
pub record Nbe (C : Type 0) : Type 0 where
  pub app_id : Bytes
  pub controller_id : Bytes
  pub serial : Bytes
  pub ip_address : Bytes
  pub seq_no : ℤ
  pub pin_code : Bytes
  pub rsa_key : Option PublicKey
  pub queue : Map ℤ C

-- `z + 1` on integers.
abbrev pub succ : ℤ → ℤ
succ (pos n) = pos (suc n)
succ (negsuc zero) = pos 0
succ (negsuc (suc n)) = negsuc n

-- `z > 99`.
abbrev pub above_99 : ℤ → Bool
above_99 (pos n) = ltb 99 n
above_99 (negsuc n) = false

-- `nbe.SeqNo++; if nbe.SeqNo > 99 { nbe.SeqNo = 0 }`, on an `int8`.
unfoldable pub next_seq : ℤ → ℤ
next_seq seq_no = let next = to_int8 (succ seq_no) in if above_99 next then pos 0 else next

-- What the network and the clock do during one call.
pub record Call : Type 0 where
  pub now : ℤ
  pub random : ℕ → Bytes
  pub resolves : Bool
  pub written : Bool

-- A call's result: the client after it, the packet on the wire, and what is returned.
abbrev pub Sent : Type 0 → Type 0
Sent C = Nbe C × Option Bytes × Outcome ℤ

module _ {C : Type 0} where
  -- The part of `SendAsync` behind `Pack`.
  post : Call → ℤ → C → Nbe C → Bytes → Sent C
  post call seq_no cb nbe packet =
      if call.written
      then (record nbe { queue = insert seq_no cb nbe.queue }, some packet, ok seq_no)
      else (record nbe { queue = delete seq_no (insert seq_no cb nbe.queue) }, none, err unsent)

  packed : Call → ℤ → C → Nbe C → Outcome (Unit {0}) → Bytes → Sent C
  unfolding post
  packed call seq_no cb nbe (ok _) packet = post call seq_no cb nbe packet
  packed call seq_no cb nbe (err e) packet = (nbe, none, err e)
  packed call seq_no cb nbe panic packet = (nbe, none, panic)

  unfoldable pub send_async : Call → NbeRequest → C → Nbe C → Sent C
  unfolding packed
  send_async call request cb nbe =
      let seq_no = next_seq nbe.seq_no in
      let nbe' = record nbe { seq_no = seq_no } in
      let done = Request.pack call.now call.random (record request { seq_no = seq_no }) [] in
      if call.resolves
      then packed call seq_no cb nbe' done.0 done.1
      else (nbe', none, err unresolved)

  -- The request of `GetAsync` and `Get`.
  unfoldable pub get_request : Nbe C → Function → Bytes → NbeRequest
  get_request nbe function path = record {
    app_id = nbe.app_id;
    controller_id = nbe.controller_id;
    rsa_key = none;
    function = function;
    seq_no = pos 0;
    pin_code = [];
    timestamp = zero_time;
    payload = path;
  }

  unfoldable pub get_async : Call → Function → Bytes → C → Nbe C → Sent C
  unfolding send_async get_request
  get_async call function path cb nbe = send_async call (get_request nbe function path) cb nbe

  -- The request of `SetAsync` and `Set`.
  unfoldable pub set_request : Nbe C → Bytes → Bytes → NbeRequest
  set_request nbe path value = record {
    app_id = nbe.app_id;
    controller_id = nbe.controller_id;
    rsa_key = nbe.rsa_key;
    function = set_setup_function;
    seq_no = pos 0;
    pin_code = nbe.pin_code;
    timestamp = zero_time;
    payload = path ++ (b'=' ∷ value);
  }

  unfoldable pub set_async : Call → Bytes → Bytes → C → Nbe C → Sent C
  unfolding send_async set_request
  set_async call path value cb nbe = send_async call (set_request nbe path value) cb nbe

  module _ {F : Type 0} (runtime : Runtime F) where
    -- The callback that is called, with its response, and the client after it.
    deliver : NbeResponse F → Option C → Nbe C → Nbe C × Option (C × NbeResponse F)
    deliver response none nbe = (nbe, none)
    deliver response (some cb) nbe =
        (record nbe { queue = delete response.seq_no nbe.queue }, some (cb, response))

    take_response : Outcome (NbeResponse F) → Nbe C → Nbe C × Outcome (Option (C × NbeResponse F))
    unfolding deliver
    take_response (err e) nbe = (nbe, ok none)
    take_response panic nbe = (nbe, panic)
    take_response (ok response) nbe =
        if response.seq_no == negsuc 0
        then (nbe, ok none)
        else (let done = deliver response (lookup response.seq_no nbe.queue) nbe in
            (done.0, ok done.1))

    -- `handle`, on the whole buffer.
    unfoldable pub handle : Bytes → Nbe C → Nbe C × Outcome (Option (C × NbeResponse F))
    unfolding take_response
    handle buffer nbe = take_response (Response.unpack runtime buffer).0 nbe
