-- ===== src/Process/Links/Fair.antt =====
-- A process that is ready gets the processor, from any state that the operations lead to.
use lpc17xx_network.Base.{
  ℕ, suc, ◌≤◌, ◌≡◌, ◌≢◌, refl, sym, arith, ◌∙◌, ap, true, ◌==◌, ==_iff, ==_ne, List, [], ◌∷◌, ◌++◌,
  Option, none, some, inl, inr, Bool-cases, length, length-append, append_assoc, append-nil,
}
use lpc17xx_network.Base.Run.{ok}
use lpc17xx_network.LinkedList.{Links}
use lpc17xx_network.LinkedList.Ring.{has, has-append}
use lpc17xx_network.Process.{running, Sched, is_running, requeue, take_next, pick_new_task}
use lpc17xx_network.Process.Links.{Heads}
use lpc17xx_network.Process.Links.Switch.{pick_new_task-none, pick_new_task-some}
use lpc17xx_network.Process.Links.Sound.{IsSound}
use lpc17xx_network.Process.Links.Steps.{Reaches, Reaches-IsSound}
use lpc17xx_network.Process.Links.Tracked.{is_current, IsTracked, Reaches-IsTracked}
use lpc17xx_network.Process.Robin.{switches, switches-reaches}

-- A node of a list stands between two parts of it.
has-split :
    (p : ℕ) (qs : List ℕ)
    → has p qs ≡ true
    → (front : List ℕ) × (back : List ℕ) × (qs ≡ front ++ p ∷ back)
has-split p [] m = absurd (ground (arith, m))
has-split p (q ∷ qs) m = elim (Bool-cases (p == q)) [
  | inl same ↦ ([], qs, ap (λ n. n ∷ qs) (sym ((==_iff p q).0 same)))
  | inr other ↦
      let (front, back, e) = has-split p qs (ground (arith, m, other)) in
      (q ∷ front, back, ap (λ l. q ∷ l) e)
]

-- A switch takes the first process of the run queue, whatever becomes of the current one.
pick_new_task-first :
    (s : Sched) (stack first : ℕ) (rest : List ℕ)
    → s.runqueue ≡ first ∷ rest
    → stack ≢ 0
    → (s' : Sched) × (extra : List ℕ) × (pick_new_task stack s ≡ ok s')
      × (s'.current_tsk ≡ some first)
      × (s'.runqueue ≡ rest ++ extra)
      × (s'.state ≡ s.state)
unfolding requeue take_next
pick_new_task-first s stack first rest q ne = go s.current_tsk refl
  where
    go :
        (o : Option ℕ)
        → s.current_tsk ≡ o
        → (s' : Sched) × (extra : List ℕ) × (pick_new_task stack s ≡ ok s')
          × (s'.current_tsk ≡ some first)
          × (s'.runqueue ≡ rest ++ extra)
          × (s'.state ≡ s.state)
    go none task = (
      take_next (first ∷ rest) s,
      [],
      pick_new_task-none stack s task ∙ ap (λ l. ok (take_next l s)) q,
      refl,
      sym (append-nil rest),
      refl,
    )
    go (some c) task =
        let run = rw (==_ne stack 0 ne) at (pick_new_task-some stack c s task) in
        elim (Bool-cases (is_running (s.state c))) [
          | inl on ↦
              let queue : (requeue c stack s).runqueue ≡ first ∷ (rest ++ c ∷ []) =
                rw on (ap (λ l. l ++ c ∷ []) q) in
              (
                take_next (first ∷ (rest ++ c ∷ [])) (requeue c stack s),
                c ∷ [],
                run ∙ ap (λ l. ok (take_next l (requeue c stack s))) queue,
                refl,
                refl,
                refl,
              )
          | inr off ↦
              let queue : (requeue c stack s).runqueue ≡ first ∷ rest = rw off q in
              (
                take_next (first ∷ rest) (requeue c stack s),
                [],
                run ∙ ap (λ l. ok (take_next l (requeue c stack s))) queue,
                refl,
                sym (append-nil rest),
                refl,
              )
        ]

switches-suc :
    (n stack : ℕ) (s s' : Sched)
    → pick_new_task stack s ≡ ok s'
    → switches (suc n) stack s ≡ switches n stack s'
switches-suc n stack s s' e = rw (switches, e) refl

-- The same for a process with others before it, which are all ready.
switches-front :
    (front : List ℕ) (s : Sched) (p stack : ℕ) (back : List ℕ)
    → s.runqueue ≡ front ++ p ∷ back
    → ((q : ℕ) → has q front ≡ true → s.state q ≡ running)
    → stack ≢ 0
    → (s' : Sched) × (switches (suc (length front)) stack s ≡ ok s') × (s'.current_tsk ≡ some p)
switches-front [] s p stack back q ready ne =
    let (s1, extra, run, cur, left, same) = pick_new_task-first s stack p back q ne in
    (s1, switches-suc 0 stack s s1 run, cur)
switches-front (first ∷ front) s p stack back q ready ne =
    let (s1, extra, run, cur, left, same) =
      pick_new_task-first s stack first (front ++ p ∷ back) q ne in
    let (s2, more, at, rest) =
      switches-reaches front s1 first p stack (back ++ extra) cur
        (λ n m. ap (λ f. f n) same ∙ ready n m) (left ∙ append_assoc front (p ∷ back) extra) ne in
    (s2, switches-suc (suc (length front)) stack s s1 run ∙ more, at)

-- Start from queues that are sound as process_wait and the other operations keep them (well-
-- formed lists in memory, without a common node, each of processes in its own state), where
-- besides every process in the running state, the idle task apart, is current or in the run
-- queue, and every waiting one is in the wait queue. After any sequence of process_wait,
-- process_finish, process_spawn, process_wakeup of a process that is not current, pick_new_task
-- and rounds of the idle task, a process in the running state other than the idle task is the
-- current one after at most as many task switches in a row, each with a stack, as the run queue
-- has processes.
pub Reaches-switches :
    (h : Heads) (l : Links) (s : Sched) (k : Links) (t : Sched) (p stack : ℕ)
    → IsSound h l s
    → IsTracked s
    → Reaches h l s k t
    → is_running (t.state p) ≡ true
    → p ≢ t.idle_tsk
    → stack ≢ 0
    → (n : ℕ) × (t' : Sched) × (n ≤ length t.runqueue)
      × (switches n stack t ≡ ok t')
      × (t'.current_tsk ≡ some p)
Reaches-switches h l s k t p stack sound tracked r on other ne =
    elim (Bool-cases (has p t.runqueue)) [
      | inl queued ↦
          let (front, back, e) = has-split p t.runqueue queued in
          let (t', run, at) =
            switches-front front t p stack back e
              (λ q m.
                now.queued.run_state q (rw e (ground (arith, has-append q front (p ∷ back), m))))
              ne in
          (
            suc (length front),
            t',
            omega (arith, ap length e, length-append front (p ∷ back)),
            run,
            at,
          )
      | inr out ↦
          let found : is_current p t.current_tsk ≡ true =
            ground (arith, out, (Reaches-IsTracked h l s k t tracked r).ready p on other) in
          (0, t, omega arith, refl, current_is t.current_tsk found)
    ]
  where
    now : IsSound h k t
    now = Reaches-IsSound h l s k t sound r

    current_is : (o : Option ℕ) → is_current p o ≡ true → o ≡ some p
    current_is none f = absurd (cc)
    current_is (some c) f = ap some (sym ((==_iff p c).0 f))
