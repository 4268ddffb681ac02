-- ===== src/Process/Links/Switch.antt =====
-- The pointers that pick_new_task writes.
use lpc17xx_network.Base.{
  ℕ, ◌≡◌, ◌≢◌, refl, sym, ==_ne, arith, ◌∙◌, ap, Bool, true, false, ◌==◌, List, [], ◌∷◌, ◌++◌,
  Option, none, some, inl, inr, Bool-cases, if◌then◌else◌,
}
use lpc17xx_network.Base.Run.{Run, ok, halted}
use lpc17xx_network.LinkedList.{Links, list_add_tail, list_pop}
use lpc17xx_network.LinkedList.Ring.{◌∉◌, IsRing, has-append}
use lpc17xx_network.LinkedList.Add.{list_add_tail-append}
use lpc17xx_network.LinkedList.Del.{list_del-append, list_pop-nil}
use lpc17xx_network.LinkedList.Move.{
  AreApart, list_del-apart, list_add_tail-apart, list_pop-list_del,
}
use lpc17xx_network.Process.{Sched, is_running, requeue, take_next, pick_new_task}
use lpc17xx_network.Process.Links.{Heads, Holds, IsFree, AreApart-sym}

unfoldable pub requeue_links : Heads → Bool → ℕ → Links → Links
requeue_links h running current l = if running then list_add_tail current h.runqueue l else l

-- The address that list_pop returns, NULL for an empty run queue, and the pointers.
unfoldable pub switch_links : Heads → Sched → Links → ℕ × Links
unfolding requeue_links
switch_links h s l = elim s.current_tsk [
  | none ↦ list_pop h.runqueue l
  | some current ↦ list_pop h.runqueue (requeue_links h (is_running (s.state current)) current l)
]

AreApart-snoc :
    (a b p : ℕ) (xs ys : List ℕ)
    → AreApart a xs b ys
    → p ∉ (b ∷ ys)
    → AreApart a (xs ++ p ∷ []) b ys
AreApart-snoc a b p xs ys apart out n m = ground (arith, apart n, has-append n xs (p ∷ []))

pub requeue-Holds :
    (h : Heads) (l : Links) (s : Sched) (current stack : ℕ) (running : Bool)
    → is_running (s.state current) ≡ running
    → Holds h l s
    → (running ≡ true → IsFree h s current)
    → Holds h (requeue_links h running current l) (requeue current stack s)
unfolding requeue_links requeue
requeue-Holds h l s current stack false e v f = record {
  run = rw e v.run;
  wait = v.wait;
  dead = v.dead;
  run_wait = rw e v.run_wait;
  run_dead = rw e v.run_dead;
  wait_dead = v.wait_dead;
}
requeue-Holds h l s current stack true e v free =
    let f = free refl in
    let wait_run = AreApart-sym h.runqueue h.waitqueue s.runqueue s.waitqueue v.run_wait in
    let dead_run = AreApart-sym h.runqueue h.deadqueue s.runqueue s.deadqueue v.run_dead in
    record {
      run = rw e (list_add_tail-append current h.runqueue s.runqueue l v.run f.not_run);
      wait =
          list_add_tail-apart current h.runqueue h.waitqueue s.runqueue s.waitqueue l v.run v.wait
            wait_run f.not_wait;
      dead =
          list_add_tail-apart current h.runqueue h.deadqueue s.runqueue s.deadqueue l v.run v.dead
            dead_run f.not_dead;
      run_wait = rw e (
          AreApart-snoc h.runqueue h.waitqueue current s.runqueue s.waitqueue v.run_wait
            f.not_wait);
      run_dead = rw e (
          AreApart-snoc h.runqueue h.deadqueue current s.runqueue s.deadqueue v.run_dead
            f.not_dead);
      wait_dead = v.wait_dead;
    }

-- The head of the run queue, NULL for none.
abbrev pub first_or_null : List ℕ → ℕ
first_or_null [] = 0
first_or_null (p ∷ ps) = p

pub AreApart-tail : (a b p : ℕ) (xs ys : List ℕ) → AreApart a (p ∷ xs) b ys → AreApart a xs b ys
AreApart-tail a b p xs ys apart n m = apart n (ground arith)

pub take_next-Holds :
    (h : Heads) (l : Links) (s : Sched) (qs : List ℕ)
    → s.runqueue ≡ qs
    → Holds h l s
    → Holds h (list_pop h.runqueue l).1 (take_next qs s)
      × ((list_pop h.runqueue l).0 ≡ first_or_null qs)
unfolding take_next
take_next-Holds h l s [] e v =
    let run : IsRing l h.runqueue [] = rw e at v.run in
    rw (list_pop-nil h.runqueue l run) (
      record {
        run = run;
        wait = v.wait;
        dead = v.dead;
        run_wait = rw e at v.run_wait;
        run_dead = rw e at v.run_dead;
        wait_dead = v.wait_dead;
      },
      refl,
    )
take_next-Holds h l s (p ∷ ps) e v =
    let run : IsRing l h.runqueue (p ∷ ps) = rw e at v.run in
    let run_wait : AreApart h.runqueue (p ∷ ps) h.waitqueue s.waitqueue = rw e at v.run_wait in
    let run_dead : AreApart h.runqueue (p ∷ ps) h.deadqueue s.deadqueue = rw e at v.run_dead in
    rw (list_pop-list_del h.runqueue p ps l run) (
      record {
        run = (list_del-append h.runqueue p [] ps l run).0;
        wait = list_del-apart h.runqueue p h.waitqueue [] ps s.waitqueue l run v.wait run_wait;
        dead = list_del-apart h.runqueue p h.deadqueue [] ps s.deadqueue l run v.dead run_dead;
        run_wait = AreApart-tail h.runqueue h.waitqueue p ps s.waitqueue run_wait;
        run_dead = AreApart-tail h.runqueue h.deadqueue p ps s.deadqueue run_dead;
        wait_dead = v.wait_dead;
      },
      refl,
    )

-- What list_pop returned, or the idle task.
abbrev pub chosen : ℕ → ℕ → ℕ
chosen idle next = if next == 0 then idle else next

take_next-chosen :
    (s : Sched) (qs : List ℕ)
    → 0 ∉ qs
    → (take_next qs s).current_tsk ≡ some (chosen s.idle_tsk (first_or_null qs))
unfolding take_next
take_next-chosen s [] out = refl
take_next-chosen s (p ∷ ps) out = rw (==_ne p 0 (λ z. not_null z)) refl
  where
    not_null : p ≢ 0
    not_null z = ground arith

-- One choice of the next task, from the queues and the memory before it.
picked :
    (h : Heads) (l : Links) (s s' : Sched)
    → take_next s.runqueue s ≡ s'
    → 0 ∉ s.runqueue
    → Holds h l s
    → Holds h (list_pop h.runqueue l).1 s'
      × (s'.current_tsk ≡ some (chosen s.idle_tsk (list_pop h.runqueue l).0))
picked h l s s' e out v =
    let (held, popped) = take_next-Holds h l s s.runqueue refl v in
    rw (← e)
      (held, take_next-chosen s s.runqueue out ∙ ap (λ n. some (chosen s.idle_tsk n)) (sym popped))

pub requeue-not_null :
    (s : Sched) (current stack : ℕ)
    → 0 ∉ s.runqueue
    → current ≢ 0
    → 0 ∉ (requeue current stack s).runqueue
unfolding requeue
requeue-not_null s current stack out ne = ground (arith, has-append 0 s.runqueue (current ∷ []))

pub ok_is : {s s' : Sched} → Run.ok s ≡ ok s' → s ≡ s'
ok_is e = cc

pub pick_new_task-none :
    (stack : ℕ) (s : Sched)
    → s.current_tsk ≡ none
    → pick_new_task stack s ≡ ok (take_next s.runqueue s)
unfolding pick_new_task
pick_new_task-none stack s task =
    ap
      (λ o. elim o as (λ x. Run Sched) [
        | none ↦ ok (take_next s.runqueue s)
        | some current ↦
            let s' = requeue current stack s in
            if stack == 0 then halted else ok (take_next s'.runqueue s')
      ])
      task

pub pick_new_task-some :
    (stack c : ℕ) (s : Sched)
    → s.current_tsk ≡ some c
    → pick_new_task stack s ≡ (
        if stack == 0
        then halted
        else ok (take_next (requeue c stack s).runqueue (requeue c stack s)))
unfolding pick_new_task
pick_new_task-some stack c s task =
    ap
      (λ o. elim o as (λ x. Run Sched) [
        | none ↦ ok (take_next s.runqueue s)
        | some current ↦
            let s' = requeue current stack s in
            if stack == 0 then halted else ok (take_next s'.runqueue s')
      ])
      task

pub switch_links-none :
    (h : Heads) (s : Sched) (l : Links)
    → s.current_tsk ≡ none
    → switch_links h s l ≡ list_pop h.runqueue l
unfolding switch_links
switch_links-none h s l task = rw (switch_links, task) refl

pub switch_links-some :
    (h : Heads) (s : Sched) (l : Links) (c : ℕ)
    → s.current_tsk ≡ some c
    → switch_links h s l ≡ list_pop h.runqueue (requeue_links h (is_running (s.state c)) c l)
unfolding switch_links
switch_links-some h s l c task = rw (switch_links, task) refl

pub not_halted : {s : Sched} → halted ≢ ok s
not_halted e = cc

-- When the memory holds the three queues as well-formed lists with no node in common, no queued
-- process is at NULL, and the current process, if there is one, is not at NULL and is in no queue
-- if it is running: a pick_new_task that does not stop the system leaves, by its list_add_tail
-- and list_pop, a memory that holds the queues it describes, and its new task is the one that
-- list_pop returned, or the idle task for NULL.
pub pick_new_task-Holds :
    (h : Heads) (l : Links) (s s' : Sched) (stack : ℕ)
    → Holds h l s
    → 0 ∉ s.runqueue
    → ((c : ℕ) → s.current_tsk ≡ some c → (c ≢ 0) × (is_running (s.state c) ≡ true → IsFree h s c))
    → pick_new_task stack s ≡ ok s'
    → Holds h (switch_links h s l).1 s'
      × (s'.current_tsk ≡ some (chosen s.idle_tsk (switch_links h s l).0))
unfolding requeue
pick_new_task-Holds h l s s' stack v out free e = go s.current_tsk refl
  where
    go :
        (o : Option ℕ)
        → s.current_tsk ≡ o
        → Holds h (switch_links h s l).1 s'
          × (s'.current_tsk ≡ some (chosen s.idle_tsk (switch_links h s l).0))
    go none task =
        let run : take_next s.runqueue s ≡ s' = ok_is (sym (pick_new_task-none stack s task) ∙ e) in
        rw (switch_links-none h s l task) (picked h l s s' run out v)
    go (some c) task = elim (Bool-cases (stack == 0)) [
      | inl z ↦ absurd (not_halted (rw (pick_new_task-some stack c s task, z) at e))
      | inr nz ↦
          let after = requeue c stack s in
          let run : take_next after.runqueue after ≡ s' =
            ok_is (rw (pick_new_task-some stack c s task, nz) at e) in
          let (ne, fr) = free c task in
          rw (switch_links-some h s l c task) (
            picked h (requeue_links h (is_running (s.state c)) c l) after s' run
              (requeue-not_null s c stack out ne)
              (requeue-Holds h l s c stack (is_running (s.state c)) refl v fr))
    ]
