-- ===== src/Nbe/Client/Threads.antt =====
-- nbe/nbe.go with many goroutines: SendAsync and handle as the steps between which another
-- goroutine may run, which are the regions under queueMutex, the write to the network, and the
-- call of a callback. A packet may come at any time, with any number, and more than once.
pub mod Sound
pub mod Twice
mod Examples
use boiler_mate.Prelude.{ℕ, List, [], ◌∷◌, some, none, eqb, if◌then◌else◌, ◌≡◌, ◌==◌}
use boiler_mate.Prelude.Int.{ℤ, pos, int_eq}
use boiler_mate.Go.Map.{Map, lookup, insert, delete}
use boiler_mate.Nbe.Client.{next_seq}

-- What the goroutines share: the fields of `NBE` under the mutex, and two histories, of the
-- callbacks put into the queue and of those called, each with its number.
pub record Shared (C : Type 0) : Type 0 where
  pub seq_no : ℤ
  pub queue : Map ℤ C
  pub queued : List (ℤ × C)
  pub called : List (ℤ × C)

-- Where a goroutine stands, with the local variables that are live there.
pub data Pc (C : Type 0) : Type 0 where
  idle : Pc C
  numbered : ℤ → C → Pc C  -- SendAsync, with its number
  registered : ℤ → C → Pc C  -- SendAsync, before WriteTo
  unwritten : ℤ → Pc C  -- SendAsync, after an error of WriteTo
  found : ℤ → C → Pc C  -- handle, before val(&response)
  answered : ℤ → Pc C  -- handle, before its delete

-- One step of one goroutine.
pub data Move {C : Type 0} (m : Shared C) : Pc C → Shared C → Pc C → Type 0 where
  number :
      (cb : C)
      → Move m idle (record m { seq_no = next_seq m.seq_no }) (numbered (next_seq m.seq_no) cb)
  give_up : {n : ℤ} {cb : C} → Move m (numbered n cb) m idle
  register :
      {n : ℤ} {cb : C}
      → Move m
          (numbered n cb)
          (record m { queue = insert n cb m.queue; queued = (n, cb) ∷ m.queued })
          (registered n cb)
  write : {n : ℤ} {cb : C} → Move m (registered n cb) m idle
  write_fails : {n : ℤ} {cb : C} → Move m (registered n cb) m (unwritten n)
  withdraw : {n : ℤ} → Move m (unwritten n) (record m { queue = delete n m.queue }) idle
  find : (n : ℤ) {cb : C} → lookup n m.queue ≡ some cb → Move m idle m (found n cb)
  ignore : (n : ℤ) → lookup n m.queue ≡ none → Move m idle m idle
  invoke :
      {n : ℤ} {cb : C} → Move m (found n cb) (record m { called = (n, cb) ∷ m.called }) (answered n)
  remove : {n : ℤ} → Move m (answered n) (record m { queue = delete n m.queue }) idle

-- The steps of one goroutine while no other runs.
pub data Moves {C : Type 0} (m : Shared C) (p : Pc C) : Shared C → Pc C → Type 0 where
  none_yet : Moves m p m p
  further :
      {m' m'' : Shared C} {p' p'' : Pc C} → Moves m p m' p' → Move m' p' m'' p'' → Moves m p m'' p''

-- Any number of goroutines; one that does nothing is idle.
pub record System (C : Type 0) : Type 0 where
  pub mem : Shared C
  pub pc : ℕ → Pc C

abbrev pub update : {C : Type 0} → (ℕ → Pc C) → ℕ → Pc C → ℕ → Pc C
update pc i p j = if eqb i j then p else pc j

pub data Step {C : Type 0} (s : System C) : System C → Type 0 where
  pick :
      (i : ℕ) {m : Shared C} {p : Pc C}
      → Move s.mem (s.pc i) m p
      → Step s (record { mem = m; pc = update s.pc i p })

-- A client as NewNBE makes it.
abbrev pub init : {C : Type 0} → System C
init = record {
  mem = record { seq_no = pos 0; queue = []; queued = []; called = [] };
  pc = λ _. idle;
}

pub data Reach {C : Type 0} : System C → Type 0 where
  start : Reach init
  later : {s t : System C} → Reach s → Step s t → Reach t
