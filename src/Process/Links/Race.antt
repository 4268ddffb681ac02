-- ===== src/Process/Links/Race.antt =====
-- An interrupt between __irq_enable and the context switch of process_wait, which wakes the
-- process that is on its way to sleep.
use lpc17xx_network.Base.{
  ℕ, ◌≡◌, ◌≢◌, refl, sym, ==_refl, arith, ◌∙◌, ap, Bool, true, false, List, [], ◌∷◌, some,
}
use lpc17xx_network.LinkedList.{
  Links, list_add_tail, list_add_between, list_pop, list_empty, list_del,
}
use lpc17xx_network.LinkedList.Ring.{has, IsRing, prev-mem}
use lpc17xx_network.Process.{Sched, is_running, unlink, process_wait, process_wakeup}
use lpc17xx_network.Process.Links.{
  Heads, Holds, IsFree, wait_links, wakeup_links, process_wait-Holds, process_wakeup-Holds,
}
use lpc17xx_network.Process.Links.Switch.{switch_links, switch_links-some, requeue_links}

-- The list still leads to a node that leads nowhere.
pub record IsCut (l : Links) (head p : ℕ) : Type 0 where
  pub first : l.next head ≡ p
  pub no_next : l.next p ≡ 0
  pub no_prev : l.prev p ≡ 0

-- Such a list holds no queue.
IsCut-IsRing :
    (l : Links) (head p : ℕ) (qs : List ℕ)
    → head ≢ 0
    → p ≢ head
    → IsCut l head p
    → ¬ IsRing l head qs
IsCut-IsRing l head p [] ne other c v = other (sym c.first ∙ v.chain.0)
IsCut-IsRing l head p (q ∷ qs) ne other c v =
    let same : q ≡ p = sym v.chain.0 ∙ c.first in ne (sym v.chain.1 ∙ ap l.prev same ∙ c.no_prev)

last-other :
    (head p : ℕ) (qs : List ℕ) (l : Links)
    → IsRing l head (p ∷ qs)
    → (l.prev head ≢ head) × (p ≢ head)
last-other head p qs l v =
    let (a, b, c) = v.chain in
    let last = prev-mem l p qs head c in
    let (out, d) = v.distinct in
    (λ e. nowhere (ap (λ n. has n (p ∷ qs)) (sym e) ∙ last) out, λ e. ground (arith, out))
  where
    nowhere : {x : Bool} → x ≡ true → x ≢ false
    nowhere e f = cc

-- The first node of a list is added again at its tail, and then taken out once.
list_pop-again :
    (head p : ℕ) (qs : List ℕ) (l : Links)
    → IsRing l head (p ∷ qs)
    → ((list_pop head (list_add_tail p head l)).0 ≡ p)
      × IsCut (list_pop head (list_add_tail p head l)).1 head p
unfolding list_pop list_add_tail list_add_between list_empty list_del
list_pop-again head p qs l v =
    let (last, other) = last-other head p qs l v in
    let (a, b, c) = v.chain in
    (
      ground (arith),
      record { first = ground (arith); no_next = ground (arith); no_prev = ground (arith) },
    )

-- When the memory holds the three queues with no node in common, the current process is in none
-- of them, the head of the run queue is not at NULL, and an interrupt wakes the current process
-- after process_wait has put it in the wait queue and before the switch: the memory still holds
-- the queues, but the task switch that follows, although it picks that process again, leaves a
-- run queue whose head leads to the process while both pointers of the process are NULL, which is
-- no well-formed list of any processes.
pub process_wakeup-process_wait :
    (h : Heads) (l : Links) (s : Sched) (current : ℕ)
    → Holds h l s
    → IsFree h s current
    → s.current_tsk ≡ some current
    → h.runqueue ≢ 0
    → let between = process_wakeup current (process_wait current s) in
      let after = switch_links h between (wakeup_links h current (wait_links h current l)) in
      Holds h (wakeup_links h current (wait_links h current l)) between
      × (between.current_tsk ≡ some current)
      × (after.0 ≡ current)
      × IsCut after.1 h.runqueue current
      × ((qs : List ℕ) → ¬ IsRing after.1 h.runqueue qs)
unfolding process_wait process_wakeup requeue_links
process_wakeup-process_wait h l s current v f task ne =
    let between = process_wakeup current (process_wait current s) in
    let k = wakeup_links h current (wait_links h current l) in
    let held =
      process_wakeup-Holds h (wait_links h current l) (process_wait current s) current []
        s.waitqueue (process_wait-Holds h l s current v f) refl in
    let on : is_running (between.state current) ≡ true = rw (==_refl current) refl in
    let run : switch_links h between k ≡ list_pop h.runqueue (list_add_tail current h.runqueue k) =
      switch_links-some h between k current task
      ∙ ap (λ b. list_pop h.runqueue (requeue_links h b current k)) on in
    let (out, cut) = list_pop-again h.runqueue current (unlink current s.runqueue) k held.run in
    let (last, other) = last-other h.runqueue current (unlink current s.runqueue) k held.run in
    rw run (held, task, out, cut, λ qs. IsCut-IsRing _ h.runqueue current qs ne other cut)
