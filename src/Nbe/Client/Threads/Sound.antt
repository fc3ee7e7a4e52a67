-- ===== src/Nbe/Client/Threads/Sound.antt =====
-- What holds of the client of nbe/nbe.go in every interleaving of its goroutines.
use mathlib.Core.Logic.{∥∥₁_map}
use mathlib.Core.List.{Mem}
use mathlib.Core.List.Memᴰ
use boiler_mate.Prelude.{
  ℕ, zero, suc, ◌≤◌, ◌<◌, ◌≡◌, refl, false, List, [], ◌∷◌, arith, length, All, All-imp, ◌==◌, eqb,
  Bool-cases, inl, inr,
}
use boiler_mate.Prelude.Int.{ℤ, pos, negsuc, int_eq}
use boiler_mate.Go.Map.{Map, delete, KeysNe, insert-KeysNe}
use boiler_mate.Go.Map.Entries.{All-insert, All-delete, All-lookup, delete-KeysNe, length-delete}
use boiler_mate.Nbe.Client.{next_seq}
use boiler_mate.Nbe.Client.Sequence.{next_seq-pos}
use boiler_mate.Nbe.Client.Threads.{
  Shared, Pc, idle, numbered, registered, unwritten, found, answered, Move, number, give_up,
  register, write, write_fails, withdraw, find, ignore, invoke, remove, System, pick, Reach, start,
  later,
}

-- From 0 on, below `k`.
abbrev pub Below : ℕ → ℤ → Type 0
Below k (pos n) = n < k
Below k (negsuc n) = ⊥

next_seq-Below : (z : ℤ) → Below 100 z → Below 100 (next_seq z)
next_seq-Below (pos n) h = rw (next_seq-pos n h) (omega arith)
next_seq-Below (negsuc n) h = absurd h

Below-shrinks : (k : ℕ) (j : ℤ) → Below (suc k) j → (j == pos k) ≡ false → Below k j
Below-shrinks k (pos n) h other = ground arith
Below-shrinks k (negsuc n) h other = h

module _ {C : Type 0} where
  mem_later : {a b : ℤ × C} {l : List (ℤ × C)} → Mem a l → Mem a (b ∷ l)
  mem_later h = ∥∥₁_map h (λ d. Memᴰ.tail d)

  delete-Below :
      (k : ℕ) (m : Map ℤ C)
      → All (λ e. Below (suc k) e.0) m
      → All (λ e. Below k e.0) (delete (pos k) m)
  unfolding delete
  delete-Below k [] h = tt
  delete-Below k ((j, v) ∷ m) h = elim (Bool-cases (j == pos k)) [
    | inl here ↦ rw here (delete-Below k m h.1)
    | inr there ↦ rw there (Below-shrinks k j h.0 there, delete-Below k m h.1)
  ]

  empty-Below : (m : Map ℤ C) → All (λ e. Below 0 e.0) m → length m ≤ 0
  empty-Below [] h = omega arith
  empty-Below ((pos n, v) ∷ m) h = absurd (omega (arith, h.0))
  empty-Below ((negsuc n, v) ∷ m) h = absurd h.0

  -- Different numbers below `k` are at most `k`.
  length-Below : (k : ℕ) (m : Map ℤ C) → KeysNe m → All (λ e. Below k e.0) m → length m ≤ k
  length-Below zero m d h = empty-Below m h
  length-Below (suc k) m d h = omega (
    arith,
    length-delete (pos k) m d,
    length-Below k (delete (pos k) m) (delete-KeysNe (pos k) m d) (delete-Below k m h),
  )

  -- Of what the goroutines share: the numbers are from 0 to 99, those of the queue are different,
  -- and what waits and what was called has been put into the queue, each under its number.
  pub record IsSound (m : Shared C) : Type 0 where
    pub number_in : Below 100 m.seq_no
    pub keys_in : All (λ e. Below 100 e.0) m.queue
    pub keys_ne : KeysNe m.queue
    pub waiting : All (λ e. Mem e m.queued) m.queue
    pub called_were : All (λ e. Mem e m.queued) m.called

  -- Of one goroutine: it sends under a number from 0 to 99, and calls what has been put into the
  -- queue.
  abbrev IsAt : List (ℤ × C) → Pc C → Type 0
  IsAt queued idle = Unit
  IsAt queued (numbered n cb) = Below 100 n
  IsAt queued (registered n cb) = Unit
  IsAt queued (unwritten n) = Unit
  IsAt queued (found n cb) = Mem (n, cb) queued
  IsAt queued (answered n) = Unit

  -- The history of the queue only grows.
  abbrev Grows : Shared C → Shared C → Type 0
  Grows m m' = (e : ℤ × C) → Mem e m.queued → Mem e m'.queued

  IsAt-Grows : (m m' : Shared C) (p : Pc C) → Grows m m' → IsAt m.queued p → IsAt m'.queued p
  IsAt-Grows m m' idle g h = tt
  IsAt-Grows m m' (numbered n cb) g h = h
  IsAt-Grows m m' (registered n cb) g h = tt
  IsAt-Grows m m' (unwritten n) g h = tt
  IsAt-Grows m m' (found n cb) g h = g (n, cb) h
  IsAt-Grows m m' (answered n) g h = tt

  deleted-IsSound :
      (m : Shared C) (n : ℤ) → IsSound m → IsSound (record m { queue = delete n m.queue })
  deleted-IsSound m n h = record {
    number_in = h.number_in;
    keys_in = All-delete (λ e. Below 100 e.0) n m.queue h.keys_in;
    keys_ne = delete-KeysNe n m.queue h.keys_ne;
    waiting = All-delete (λ e. Mem e m.queued) n m.queue h.waiting;
    called_were = h.called_were;
  }

  Move-IsSound :
      {m m' : Shared C} {p p' : Pc C}
      → Move m p m' p'
      → IsSound m
      → IsAt m.queued p
      → IsSound m' × IsAt m'.queued p' × Grows m m'
  Move-IsSound {m = m} (number cb) h at = (
    record {
      number_in = next_seq-Below m.seq_no h.number_in;
      keys_in = h.keys_in;
      keys_ne = h.keys_ne;
      waiting = h.waiting;
      called_were = h.called_were;
    },
    next_seq-Below m.seq_no h.number_in,
    λ e mem. mem,
  )
  Move-IsSound give_up h at = (h, tt, λ e mem. mem)
  Move-IsSound {m = m} (register {n} {cb}) h at = (
    record {
      number_in = h.number_in;
      keys_in = All-insert (λ e. Below 100 e.0) n cb m.queue at h.keys_in;
      keys_ne = insert-KeysNe n cb m.queue h.keys_ne;
      waiting =
          All-insert (λ e. Mem e ((n, cb) ∷ m.queued)) n cb m.queue ∣ Memᴰ.head refl ∣₁
            (All-imp m.queue (λ e mem. mem_later mem) h.waiting);
      called_were = All-imp m.called (λ e mem. mem_later mem) h.called_were;
    },
    tt,
    λ e mem. mem_later mem,
  )
  Move-IsSound write h at = (h, tt, λ e mem. mem)
  Move-IsSound write_fails h at = (h, tt, λ e mem. mem)
  Move-IsSound {m = m} (withdraw {n}) h at = (deleted-IsSound m n h, tt, λ e mem. mem)
  Move-IsSound {m = m} (find n {cb} waits) h at =
      (h, All-lookup (λ e. Mem e m.queued) n cb m.queue h.waiting waits, λ e mem. mem)
  Move-IsSound (ignore n none_waits) h at = (h, tt, λ e mem. mem)
  Move-IsSound invoke h at = (
    record {
      number_in = h.number_in;
      keys_in = h.keys_in;
      keys_ne = h.keys_ne;
      waiting = h.waiting;
      called_were = (at, h.called_were);
    },
    tt,
    λ e mem. mem,
  )
  Move-IsSound {m = m} (remove {n}) h at = (deleted-IsSound m n h, tt, λ e mem. mem)

  -- In every reachable state the shared fields and every goroutine are as described.
  Reach-IsSound : {s : System C} → Reach s → IsSound s.mem × ((i : ℕ) → IsAt s.mem.queued (s.pc i))
  Reach-IsSound start = (
    record { number_in = omega arith; keys_in = tt; keys_ne = tt; waiting = tt; called_were = tt },
    λ i. tt,
  )
  Reach-IsSound (later {s} {t} before (pick i {m} {p} move)) =
      let (sound, at) = Reach-IsSound before in
      let (sound', at', grows) = Move-IsSound move sound (at i) in
      (
        sound',
        λ j. elim (Bool-cases (eqb i j)) [
          | inl here ↦ rw here at'
          | inr there ↦ rw there (IsAt-Grows s.mem m (s.pc j) grows (at j))
        ],
      )

  -- In every interleaving of goroutines that send and goroutines that handle packets, a callback
  -- that was called with a response had been put into the queue under the response's number.
  pub Reach-called : {s : System C} → Reach s → All (λ e. Mem e s.mem.queued) s.mem.called
  Reach-called r = (Reach-IsSound r).0.called_were

  -- In every interleaving the last number and the numbers of the queue are from 0 to 99, and at
  -- most 100 requests wait, each under a number of its own.
  pub Reach-Below :
      {s : System C}
      → Reach s
      → Below 100 s.mem.seq_no
        × All (λ e. Below 100 e.0) s.mem.queue
        × KeysNe s.mem.queue
        × (length s.mem.queue ≤ 100)
  Reach-Below {s = s} r =
      let sound = (Reach-IsSound r).0 in
      (
        sound.number_in,
        sound.keys_in,
        sound.keys_ne,
        length-Below 100 s.mem.queue sound.keys_ne sound.keys_in,
      )
