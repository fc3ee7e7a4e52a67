-- ===== src/Nbe/Mock/Server.antt =====
-- nbe/mock_boiler.go: Start, Stop and listen, with the goroutines that handle the packets, as a step
-- relation whose steps are the regions under the mutex and the calls of the listener.
pub mod Ends
mod Examples
use boiler_mate.Prelude.{
  ℕ, suc, ◌+◌, ◌≡◌, Bool, true, false, List, [], ◌∷◌, ◌++◌, Bytes, Option, some, none,
}
use boiler_mate.Nbe.Types.{Runtime}
use boiler_mate.Nbe.Action.{Outcome, ok, err, panic}
use boiler_mate.Nbe.Mock.{MockBoiler, handle_request}

-- Where Start and listen stand: before the call of ListenPacket, before `running` is set, at the
-- test of `running`, in ReadFrom, at the test behind an error of it, or behind the loop.
pub data Listen : Type 0 where
  unopened opened at_test at_read at_error returned : Listen

-- The boiler, its flag and its listener, the packets whose goroutines have not run yet, and what
-- was sent back.
pub record Server (F : Type 0) : Type 0 where
  pub boiler : MockBoiler F
  pub running : Bool
  pub is_open : Bool
  pub listen : Listen
  pub packets : List Bytes
  pub sent : List Bytes
  pub panicked : Bool

-- `WriteTo` of an answer, if there is one; a closed listener writes nothing.
abbrev pub written : Bool → Outcome (Option Bytes) → List Bytes → List Bytes
written true (ok (some answer)) sent = sent ++ (answer ∷ [])
written _ _ sent = sent

-- The simulated boiler as NewMockBoiler returns it.
abbrev pub new_server : {F : Type 0} → MockBoiler F → Server F
new_server boiler = record {
  boiler = boiler;
  running = false;
  is_open = false;
  listen = unopened;
  packets = [];
  sent = [];
  panicked = false;
}

abbrev pub is_panic : Outcome (Option Bytes) → Bool
is_panic (ok answer) = false
is_panic (err e) = false
is_panic panic = true

-- `Start`, where ListenPacket succeeds, in two: the listener, and the flag with the start of
-- `listen`.
unfoldable pub start_listener : {F : Type 0} → Server F → Server F
start_listener s = record s { is_open = true; listen = opened }

unfoldable pub start_running : {F : Type 0} → Server F → Server F
start_running s = record s { running = true; listen = at_test }

-- `Stop`.
unfoldable pub stop : {F : Type 0} → Server F → Server F
stop s = record s { running = false; is_open = false }

module _ {F : Type 0} (runtime : Runtime F) where
  -- A step of a goroutine: `listen`, or one that handles a packet.
  pub data Step (s : Server F) : Server F → Type 0 where
    go_on : s.listen ≡ at_test → s.running ≡ true → Step s (record s { listen = at_read })
    stop_here : s.listen ≡ at_test → s.running ≡ false → Step s (record s { listen = returned })
    read :
        (packet : Bytes)
        → s.listen ≡ at_read
        → s.is_open ≡ true
        → Step s (record s { listen = at_test; packets = packet ∷ s.packets })
    -- A read may fail at any time; a closed listener has no packet.
    read_error : s.listen ≡ at_read → Step s (record s { listen = at_error })
    retry : s.listen ≡ at_error → s.running ≡ true → Step s (record s { listen = at_test })
    give_up : s.listen ≡ at_error → s.running ≡ false → Step s (record s { listen = returned })
    handle :
        (before after : List Bytes) (packet : Bytes)
        → s.packets ≡ before ++ (packet ∷ after)
        → Step s (record s {
          boiler = (handle_request runtime s.boiler packet).0;
          packets = before ++ after;
          sent = written s.is_open (handle_request runtime s.boiler packet).1 s.sent;
          panicked = is_panic (handle_request runtime s.boiler packet).1;
        })

  -- A call of Start, in its two steps, or of Stop.
  pub data Called (s : Server F) : Server F → Type 0 where
    listen_packet : s.listen ≡ unopened → Called s (start_listener s)
    run : s.listen ≡ opened → Called s (start_running s)
    stopped : Called s (stop s)

  -- A run with the number of the goroutines' steps; a panic ends it.
  pub data Run (s : Server F) : ℕ → Server F → Type 0 where
    init : Run s 0 s
    step : {n : ℕ} {t u : Server F} → Run s n t → t.panicked ≡ false → Step t u → Run s (suc n) u
    call : {n : ℕ} {t u : Server F} → Run s n t → t.panicked ≡ false → Called t u → Run s n u
