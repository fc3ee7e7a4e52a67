-- ===== src/App/Startup/Order.antt =====
-- cmd/boiler-mate/main.go: the discovery is published after every first response, and then.
use mathlib.Core.Path.{subst}
use boiler_mate.Prelude.{
  ℕ, zero, suc, ◌+◌, ◌-◌, ◌⊎◌, ◌≤◌, ◌<◌, ◌≡◌, refl, ◌∙◌, ap, true, false, arith, inl, inr,
}
use boiler_mate.App.Startup.{
  Wait, at_channel, published, Startup, with_value, Step, signal, receive, publish, Reach, start,
  later,
}

wait_cases : (w : Wait) → ((k : ℕ) × (w ≡ at_channel k)) ⊎ (w ≡ published)
wait_cases (at_channel k) = inl (k, refl)
wait_cases published = inr refl

module _ (last : ℕ) where
  -- The channels up to the one that is waited for have been emptied, and the others hold what was
  -- sent.
  abbrev IsAt : Startup → Wait → Type 0
  IsAt s (at_channel k) =
      (k ≤ suc last)
      × ((i : ℕ) → i < k → s.signalled i ≡ true)
      × ((i : ℕ) → k ≤ i → s.holds i ≡ s.signalled i)
  IsAt s published = (i : ℕ) → i ≤ last → s.signalled i ≡ true

  signal-IsAt :
      (s : Startup) (i : ℕ) (w : Wait)
      → s.signalled i ≡ false
      → IsAt s w
      → IsAt
          (record s {
            holds = with_value s.holds i true;
            signalled = with_value s.signalled i true;
          })
          w
  signal-IsAt s i (at_channel k) new h =
      (h.0, λ j below. ground (arith, h.1 j), λ j above. ground (arith, h.2 j))
  signal-IsAt s i published new h = λ j in_range. ground (arith, h j)

  step-IsAt : {s t : Startup} → Step last s t → IsAt s s.wait → IsAt t t.wait
  step-IsAt {s} (signal i in_range new) h = signal-IsAt s i s.wait new h
  step-IsAt {s} (receive {k} at in_range there) h =
      let there_is = subst (IsAt s) at h in
      (
        omega arith,
        λ i below. ground (arith, there_is.1 i, there_is.2 i, there_is.2 k),
        λ i above. ground (arith, there_is.2 i),
      )
  step-IsAt {s} (publish at) h =
      let there_is = subst (IsAt s) at h in λ i in_range. there_is.1 i (omega arith)

  Reach-IsAt : {s : Startup} → Reach last s → IsAt s s.wait
  Reach-IsAt start = (omega arith, λ i below. absurd (omega (arith, below)), λ i above. refl)
  Reach-IsAt (later before step) = step-IsAt step (Reach-IsAt before)

  -- In every order of the monitors' first responses and of the receives of main, when the discovery
  -- is published, every settings monitor and the operating data monitor has signalled its first
  -- response.
  pub Reach-published :
      {s : Startup} → Reach last s → s.wait ≡ published → (i : ℕ) → i ≤ last → s.signalled i ≡ true
  Reach-published {s} r done = subst (IsAt s) done (Reach-IsAt r)

  -- From a channel on, all that follow are received when all were signalled.
  receives :
      (left : ℕ) {s : Startup} (k : ℕ)
      → Reach last s
      → s.wait ≡ at_channel k
      → k + left ≡ suc last
      → ((i : ℕ) → i ≤ last → s.signalled i ≡ true)
      → (t : Startup) × Reach last t × (t.wait ≡ published)
  receives zero {s} k r at e all =
      let here : k ≡ suc last = omega (arith, e) in
      (_, later r (publish (at ∙ ap at_channel here)), refl)
  receives (suc left) {s} k r at e all =
      let there_is = subst (IsAt s) at (Reach-IsAt r) in
      let in_range : k ≤ last = omega (arith, e) in
      let held : s.holds k ≡ true = there_is.2 k (omega arith) ∙ all k in_range in
      receives left (suc k) (later r (receive at in_range held)) refl (omega (arith, e)) all

  -- From every reachable state of main's start in which every monitor has signalled, a state can be
  -- reached in which the discovery is published: no signal is lost, whatever their order.
  pub Reach-publishes :
      {s : Startup}
      → Reach last s
      → ((i : ℕ) → i ≤ last → s.signalled i ≡ true)
      → (t : Startup) × Reach last t × (t.wait ≡ published)
  Reach-publishes {s} r all = elim (wait_cases s.wait) [
    | inl (k, at) ↦
        receives (suc last - k) k r at
          (let bound = (subst (IsAt s) at (Reach-IsAt r)).0 in omega (arith, bound)) all
    | inr done ↦ (s, r, done)
  ]
