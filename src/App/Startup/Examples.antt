-- ===== src/App/Startup/Examples.antt =====
-- Examples of the start of main, with one category.
use boiler_mate.Prelude.{ℕ, ◌≤◌, ◌≡◌, refl, true, false, arith}
use boiler_mate.App.Startup.{
  at_channel, published, Startup, with_value, signal, receive, publish, Reach, start, later,
}
use boiler_mate.App.Startup.Order.{Reach-published, Reach-publishes}

-- The operating data came first, then the category.
abbrev both : Startup
both = record {
  holds = with_value (with_value (λ _. false) 1 true) 0 true;
  signalled = with_value (with_value (λ _. false) 1 true) 0 true;
  wait = at_channel 0;
}

both-Reach : Reach 1 both
both-Reach = later (later start (signal 1 (omega arith) refl)) (signal 0 (omega arith) refl)

abbrev done : Startup
done = record {
  holds = with_value (with_value both.holds 0 false) 1 false;
  signalled = both.signalled;
  wait = published;
}

done-Reach : Reach 1 done
done-Reach =
    later
      (later (later both-Reach (receive refl (omega arith) refl)) (receive refl (omega arith) refl))
      (publish refl)

both-signalled : (i : ℕ) → i ≤ 1 → both.signalled i ≡ true
both-signalled i in_range = ground arith

Reach-published_example : done.signalled 1 ≡ true
Reach-published_example = Reach-published 1 done-Reach refl 1 (omega arith)

Reach-publishes_example : (t : Startup) × Reach 1 t × (t.wait ≡ published)
Reach-publishes_example = Reach-publishes 1 both-Reach both-signalled
