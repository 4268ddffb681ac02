-- ===== src/Wait/Order.antt =====
-- When no wake-up is lost.
use lpc17xx_network.Base.{
  ℕ, ◌≢◌, ◌≡◌, refl, arith, List, [], ◌∷◌, Bool, true, false, ◌==◌, ◌⊎◌, inl, inr, Bool-cases,
}
use lpc17xx_network.LinkedList.Ring.{has}
use lpc17xx_network.Process.{Sched, waitqueue_wait, waitqueue_wakeup, process_wakeup}
use lpc17xx_network.Wait.{
  sleeps, wait_round, Waiting, Step, goes_to_sleep, changes, wakes_up, Reach, here, next,
}

pub waitqueue_wakeup-nil : (waitq : List ℕ) (s : Sched) → (waitqueue_wakeup waitq s).0 ≡ []
unfolding waitqueue_wakeup
waitqueue_wakeup-nil [] s = refl
waitqueue_wakeup-nil (p ∷ waitq) s = waitqueue_wakeup-nil waitq (process_wakeup p s)

-- Only on a condition that does not hold does a process go to sleep, at the head of the queue.
pub wait_round-sleeps :
    (masked masked' condition : Bool) (p : ℕ) (waitq waitq' : List ℕ) (s s' : Sched)
    → wait_round masked condition p waitq s ≡ sleeps masked' waitq' s'
    → (condition ≡ false) × (waitq' ≡ p ∷ waitq) × (masked' ≡ false)
unfolding wait_round waitqueue_wait
wait_round-sleeps masked masked' true p waitq waitq' s s' e = cc
wait_round-sleeps masked masked' false p waitq waitq' s s' e = (refl, cc, cc)

pub none_left : (q : ℕ) → has q [] ≢ true
none_left q e = cc

module _ {S : Type 0} (condition : ℕ → S → Bool) (Event : S → S → Bool → Type 0) where
  -- Whoever makes a condition true without a wake-up to come.
  abbrev pub AreQuiet : Type 0
  AreQuiet =
      (s s' : S) → Event s s' false → (p : ℕ) → condition p s ≡ false → condition p s' ≡ false

  -- A wake-up is still to come, or no process sleeps while its condition holds.
  abbrev pub NoneLost : Waiting S → Type 0
  NoneLost w = (w.owed ≡ true) ⊎ ((p : ℕ) → has p w.waitq ≡ true → condition p w.shared ≡ false)

  Step-NoneLost : {w v : Waiting S} → Step condition Event w v → AreQuiet → NoneLost w → NoneLost v
  Step-NoneLost {w} (goes_to_sleep p m m' waitq sched e) quiet (inl owed) = inl owed
  Step-NoneLost {w} (goes_to_sleep p m m' waitq sched e) quiet (inr safe) =
      let (off, queue, mask) =
        wait_round-sleeps m m' (condition p w.shared) p w.waitq waitq w.sched sched e in
      inr (λ q h. elim (Bool-cases (q == p)) [
        | inl same ↦ ground (arith, off)
        | inr other ↦ safe q (rw (queue, other) at h)
      ])
  Step-NoneLost {w} (changes s true e) quiet old = inl (ground arith)
  Step-NoneLost {w} (changes s false e) quiet (inl owed) = inl (ground arith)
  Step-NoneLost {w} (changes s false e) quiet (inr safe) =
      inr (λ q h. quiet w.shared s e q (safe q h))
  Step-NoneLost {w} wakes_up quiet old =
      inr (λ q h. absurd (none_left q (rw (waitqueue_wakeup-nil w.waitq w.sched) at h)))

  -- Reachable.
  pub Reach-NoneLost :
      {w v : Waiting S} → Reach condition Event w v → AreQuiet → NoneLost w → NoneLost v
  Reach-NoneLost here quiet h = h
  Reach-NoneLost (next r st) quiet h = Step-NoneLost st quiet (Reach-NoneLost r quiet h)
