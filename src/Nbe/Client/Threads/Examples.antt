-- ===== src/Nbe/Client/Threads/Examples.antt =====
-- Examples of the client's goroutines: one request is sent, and its response comes.
use mathlib.Core.List.{Mem}
use boiler_mate.Prelude.{ℕ, ◌≤◌, ◌≡◌, refl, [], ◌∷◌, length, All}
use boiler_mate.Prelude.Int.{pos, int_eq}
use boiler_mate.Go.Map.{lookup, insert, KeysNe}
use boiler_mate.Nbe.Client.{next_seq}
use boiler_mate.Nbe.Client.Threads.{
  idle, numbered, registered, found, answered, number, register, write, find, invoke, System,
  update, pick, Reach, start, later,
}
use boiler_mate.Nbe.Client.Threads.Sound.{Reach-called, Reach-Below, Below}
use boiler_mate.Nbe.Client.Threads.Twice.{Reach-called_twice}

-- The request of callback 5 has gone out under number 1.
abbrev sent : System ℕ
sent = record {
  mem = record { seq_no = pos 1; queue = (pos 1, 5) ∷ []; queued = (pos 1, 5) ∷ []; called = [] };
  pc = update (update (update (λ _. idle) 0 (numbered (pos 1) 5)) 0 (registered (pos 1) 5)) 0 idle;
}

sent-Reach : Reach sent
unfolding next_seq insert
sent-Reach = later (later (later start (pick 0 (number 5))) (pick 0 register)) (pick 0 write)

-- Its response has come, and the callback has been called.
abbrev done : System ℕ
done = record {
  mem = record sent.mem { called = (pos 1, 5) ∷ [] };
  pc = update (update sent.pc 1 (found (pos 1) 5)) 1 (answered (pos 1));
}

done-Reach : Reach done
unfolding lookup
done-Reach = later (later sent-Reach (pick 1 (find (pos 1) refl))) (pick 1 invoke)

Reach-called_example : All (λ e. Mem e done.mem.queued) done.mem.called
Reach-called_example = Reach-called done-Reach

Reach-Below_example :
    Below 100 done.mem.seq_no
    × All (λ e. Below 100 e.0) done.mem.queue
    × KeysNe done.mem.queue
    × (length done.mem.queue ≤ 100)
Reach-Below_example = Reach-Below done-Reach

Reach-called_twice_example :
    (t : System ℕ) × Reach t × (t.mem.called ≡ (pos 1, 5) ∷ (pos 1, 5) ∷ sent.mem.called)
unfolding lookup
Reach-called_twice_example = Reach-called_twice 0 1 (pos 1) 5 sent-Reach refl refl refl refl
