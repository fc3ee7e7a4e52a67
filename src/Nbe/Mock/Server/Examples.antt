-- ===== src/Nbe/Mock/Server/Examples.antt =====
-- An example of a run of the simulated boiler.
use boiler_mate.Nbe.Mock.{handle_request}
use boiler_mate.Nbe.Mock.Server.{written, is_panic, at_read, Server}
use boiler_mate.Prelude.{ℕ, true, false, [], ◌∷◌, codes}
use boiler_mate.Nbe.Fixtures.{whole, boiler}

-- It was started, and listen is in ReadFrom behind one packet.
abbrev busy : Server ℕ
busy = record {
  boiler = boiler;
  running = true;
  is_open = true;
  listen = at_read;
  packets = codes "short" ∷ [];
  sent = [];
  panicked = false;
}

abbrev handled : Server ℕ
handled = record busy {
  running = false;
  is_open = false;
  boiler = (handle_request whole boiler (codes "short")).0;
  packets = [];
  sent = written false (handle_request whole boiler (codes "short")).1 [];
  panicked = is_panic (handle_request whole boiler (codes "short")).1;
}
