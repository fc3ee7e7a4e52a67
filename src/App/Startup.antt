-- ===== src/App/Startup.antt =====
-- cmd/boiler-mate/main.go: main waits for the first response of every settings monitor and of the
-- operating data monitor before it publishes the discovery. Channel i is the one of the i-th
-- category, and channel `last` the one of the operating data.
pub mod Order
mod Examples
use boiler_mate.Prelude.{ℕ, suc, ◌+◌, ◌≤◌, ◌<◌, ◌≡◌, Bool, true, false, eqb, if◌then◌else◌}

-- Where the goroutine stands that waits: before its next receive, or behind PublishDiscovery.
pub data Wait : Type 0 where
  at_channel : ℕ → Wait
  published : Wait

-- The signals that lie in the channels, those that were ever sent, and the goroutine that waits.
pub record Startup : Type 0 where
  pub holds : ℕ → Bool
  pub signalled : ℕ → Bool
  pub wait : Wait

abbrev pub with_value : (ℕ → Bool) → ℕ → Bool → ℕ → Bool
with_value f i b j = if eqb i j then b else f j

pub data Step (last : ℕ) (s : Startup) : Startup → Type 0 where
  -- A monitor's first response; a monitor signals once.
  signal :
      (i : ℕ)
      → i ≤ last
      → s.signalled i ≡ false
      → Step last s (record s {
        holds = with_value s.holds i true;
        signalled = with_value s.signalled i true;
      })
  -- `<-ready`, `<-operatingReady`
  receive :
      {k : ℕ}
      → s.wait ≡ at_channel k
      → k ≤ last
      → s.holds k ≡ true
      → Step last s (record s { holds = with_value s.holds k false; wait = at_channel (suc k) })
  -- `allReady <- true`, and PublishDiscovery
  publish : s.wait ≡ at_channel (suc last) → Step last s (record s { wait = published })

abbrev pub init : Startup
init = record { holds = λ _. false; signalled = λ _. false; wait = at_channel 0 }

pub data Reach (last : ℕ) : Startup → Type 0 where
  start : Reach last init
  later : {s t : Startup} → Reach last s → Step last s t → Reach last t
