-- ===== src/Nbe/Client/Threads/Twice.antt =====
-- nbe/nbe.go: two packets with the same number, each in a goroutine of its own.
use mathlib.Core.Path.{subst}
use boiler_mate.Prelude.{ℕ, ◌≡◌, refl, ◌∙◌, sym, false, ◌∷◌, some, eqb, arith}
use boiler_mate.Prelude.Int.{ℤ, int_eq}
use boiler_mate.Go.Map.{lookup}
use boiler_mate.Nbe.Client.Threads.{
  Shared, Pc, idle, found, answered, Move, find, invoke, System, update, pick, Reach, later,
}

module _ {C : Type 0} where
  -- A goroutine that stands at `p` takes a step from there.
  reach_move :
      {s : System C}
      → Reach s
      → (i : ℕ) {p p' : Pc C} {m : Shared C} → s.pc i ≡ p
      → Move s.mem p m p'
      → Reach (record { mem = m; pc = update s.pc i p' })
  reach_move {s} r i {p' = p'} {m = m} at move =
      later r (pick i (subst (λ q. Move s.mem q m p') (sym at) move))

  update-same : (pc : ℕ → Pc C) (i : ℕ) (p : Pc C) → update pc i p i ≡ p
  update-same pc i p = ground arith

  update-other : (pc : ℕ → Pc C) (i j : ℕ) (p : Pc C) → eqb i j ≡ false → update pc i p j ≡ pc j
  update-other pc i j p other = rw other refl

  -- From every reachable state in which a callback waits and two different goroutines are idle, a
  -- state can be reached in which the callback has been called twice more.
  pub Reach-called_twice :
      {s : System C} (i j : ℕ) (n : ℤ) (cb : C)
      → Reach s
      → eqb i j ≡ false
      → s.pc i ≡ idle
      → s.pc j ≡ idle
      → lookup n s.mem.queue ≡ some cb
      → (t : System C) × Reach t × (t.mem.called ≡ (n, cb) ∷ (n, cb) ∷ s.mem.called)
  Reach-called_twice {s} i j n cb r other idle_i idle_j waits =
      let pc' = update s.pc i (found n cb) in
      let pc'' = update pc' j (found n cb) in
      let back : eqb j i ≡ false = ground arith in
      let r' : Reach (record { mem = s.mem; pc = pc' }) = reach_move r i idle_i (find n waits) in
      let r'' : Reach (record { mem = s.mem; pc = pc'' }) =
        reach_move r' j (update-other s.pc i j (found n cb) other ∙ idle_j) (find n waits) in
      let once =
        reach_move r'' i (update-other pc' j i (found n cb) back ∙ update-same s.pc i (found n cb))
          invoke in
      let twice =
        reach_move once j
          (update-other pc'' i j (answered n) other ∙ update-same pc' j (found n cb)) invoke in
      (_, twice, refl)
