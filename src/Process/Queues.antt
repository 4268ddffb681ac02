-- ===== src/Process/Queues.antt =====
-- What waitqueue_wakeup does to the processes of a wait queue.
use lpc17xx_network.Base.{
  ℕ, ◌≡◌, refl, sym, subst, ◌∙◌, ap, List, [], ◌∷◌, true, ◌==◌, arith, Bool-cases, inl, inr,
}
use lpc17xx_network.LinkedList.Ring.{has, ◌∉◌}
use lpc17xx_network.Process.{running, Sched, unlink, process_wakeup, waitqueue_wakeup}

-- No process of the queue is in the run queue, or would be woken twice.
abbrev pub AreAsleep : List ℕ → List ℕ → Type 0
AreAsleep [] runqueue = Unit {0}
AreAsleep (p ∷ ps) runqueue = (p ∉ runqueue) × AreAsleep ps (p ∷ runqueue)

-- The list, reversed onto another.
abbrev pub rev_onto : List ℕ → List ℕ → List ℕ
rev_onto [] ys = ys
rev_onto (x ∷ xs) ys = rev_onto xs (x ∷ ys)

pub unlink-absent : (p : ℕ) (qs : List ℕ) → p ∉ qs → unlink p qs ≡ qs
unfolding unlink
unlink-absent p [] h = refl
unlink-absent p (q ∷ qs) h = ground (arith, unlink-absent p qs)

-- Waking keeps a running process running.
wakeup_keeps :
    (waitq : List ℕ) (s : Sched) (p : ℕ)
    → s.state p ≡ running
    → ((waitqueue_wakeup waitq s).1).state p ≡ running
unfolding waitqueue_wakeup process_wakeup
wakeup_keeps [] s p h = h
wakeup_keeps (q ∷ waitq) s p h = wakeup_keeps waitq (process_wakeup q s) p (ground arith)

-- Every process of a wait queue is in the running state after waitqueue_wakeup.
pub waitqueue_wakeup-running :
    (waitq : List ℕ) (s : Sched) (p : ℕ)
    → has p waitq ≡ true
    → ((waitqueue_wakeup waitq s).1).state p ≡ running
unfolding waitqueue_wakeup process_wakeup
waitqueue_wakeup-running [] s p h = absurd (ground arith)
waitqueue_wakeup-running (q ∷ waitq) s p h = elim (Bool-cases (p == q)) [
  | inl e ↦ wakeup_keeps waitq (process_wakeup q s) p (ground arith)
  | inr e ↦ waitqueue_wakeup-running waitq (process_wakeup q s) p (ground arith)
]

-- When no process of a wait queue is in the run queue or twice in the wait queue,
-- waitqueue_wakeup empties the wait queue and puts its processes at the head of the run queue,
-- the last one first.
pub waitqueue_wakeup-runqueue :
    (waitq : List ℕ) (s : Sched)
    → AreAsleep waitq s.runqueue
    → ((waitqueue_wakeup waitq s).0 ≡ [])
      × (((waitqueue_wakeup waitq s).1).runqueue ≡ rev_onto waitq s.runqueue)
unfolding waitqueue_wakeup process_wakeup
waitqueue_wakeup-runqueue [] s h = (refl, refl)
waitqueue_wakeup-runqueue (p ∷ waitq) s (h, t) =
    let same : p ∷ unlink p s.runqueue ≡ p ∷ s.runqueue =
      ap (λ l. p ∷ l) (unlink-absent p s.runqueue h) in
    let (empty, queue) =
      waitqueue_wakeup-runqueue waitq (process_wakeup p s) (subst (AreAsleep waitq) (sym same) t) in
    (empty, queue ∙ ap (rev_onto waitq) same)
