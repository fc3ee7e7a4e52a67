-- ===== src/Nbe/Mock/Server/Ends.antt =====
-- nbe/mock_boiler.go: behind Stop the goroutines of the simulated boiler end.
use boiler_mate.Prelude.{true, true, ℕ, ◌+◌, ◌≡◌, false, length}
use boiler_mate.Nbe.Types.{Runtime}
use boiler_mate.Nbe.Mock.Server.{
  Listen, unopened, opened, at_test, at_read, at_error, returned, Server,
}

-- The steps that listen may still take behind Stop.
abbrev rounds : Listen → ℕ
rounds unopened = 0
rounds opened = 0
rounds at_test = 1
rounds at_read = 2
rounds at_error = 1
rounds returned = 0

-- Start has launched listen.
abbrev IsLaunched : Listen → Type 0
IsLaunched unopened = ⊥
IsLaunched opened = ⊥
IsLaunched at_test = Unit
IsLaunched at_read = Unit
IsLaunched at_error = Unit
IsLaunched returned = Unit

module _ {F : Type 0} (runtime : Runtime F) where
  -- Start has launched listen, and Stop was called.
  pub record IsStopped (s : Server F) : Type 0 where
    pub launched : IsLaunched s.listen
    pub not_running : s.running ≡ false
    pub closed : s.is_open ≡ false

  -- The steps that are left.
  abbrev pub left : Server F → ℕ
  left s = rounds s.listen + length s.packets
