-- ===== src/Process/Links/Turns.antt =====
-- process_wakeup and pick_new_task, on the queues in memory and the states of the processes.
use lpc17xx_network.Base.{
  ℕ, ◌≡◌, ◌≢◌, refl, sym, arith, ◌∙◌, ap, Bool, true, false, ◌==◌, ==_iff, subst, if◌then◌else◌,
  List, [], ◌∷◌, ◌++◌, Option, none, some, inl, inr, Bool-cases,
}
use lpc17xx_network.Base.Run.{ok}
use lpc17xx_network.LinkedList.{Links, list_pop}
use lpc17xx_network.LinkedList.Ring.{has, ◌∉◌, IsRing, has-append}
use lpc17xx_network.Process.{
  ProcessState, running, waiting, finished, Sched, is_running, unlink, process_wakeup, requeue,
  take_next, pick_new_task,
}
use lpc17xx_network.Process.Links.{Heads, wakeup_links, process_wakeup-Holds}
use lpc17xx_network.Process.Links.Sound.{IsQueued, IsCurrent, IsSound, some_is}
use lpc17xx_network.Process.Links.Switch.{
  requeue_links, switch_links, requeue-Holds, take_next-Holds, requeue-not_null, pick_new_task-none,
  pick_new_task-some, switch_links-none, switch_links-some, ok_is, not_halted,
}

-- A list without one of its nodes has no other ones.
has-unlink : (n p : ℕ) (qs : List ℕ) → has n (unlink p qs) ≡ true → has n qs ≡ true
unfolding unlink
has-unlink n p [] m = m
has-unlink n p (q ∷ qs) m = ground (arith, has-unlink n p qs)

unlink-without : (n p : ℕ) (qs : List ℕ) → n ∉ qs → n ∉ unlink p qs
unfolding unlink
unlink-without n p [] m = m
unlink-without n p (q ∷ qs) m = ground (arith, unlink-without n p qs)

unlink-out : (n a p : ℕ) (qs : List ℕ) → n ∉ (a ∷ qs) → n ∉ (a ∷ unlink p qs)
unlink-out n a p qs m = ground (arith, unlink-without n p qs)

-- A node is not NULL when a list has it and has no NULL.
has-not_null : (p : ℕ) (qs : List ℕ) → has p qs ≡ true → 0 ∉ qs → p ≢ 0
has-not_null p [] m out z = absurd (ground (arith, m))
has-not_null p (q ∷ qs) m out z = ground (arith, has-not_null p qs)

running_is : (st : ProcessState) → is_running st ≡ true → st ≡ running
running_is running e = refl
running_is waiting e = absurd (cc)
running_is finished e = absurd (cc)

pub process_wakeup-IsSound :
    (h : Heads) (l : Links) (s : Sched) (proc : ℕ) (xs ys : List ℕ)
    → IsSound h l s
    → s.waitqueue ≡ xs ++ proc ∷ ys
    → s.current_tsk ≢ some proc
    → IsSound h (wakeup_links h proc l) (process_wakeup proc s)
unfolding process_wakeup
process_wakeup-IsSound h l s proc xs ys v at other =
    let q = v.queued in
    let held = process_wakeup-Holds h l s proc xs ys q.held at in
    let here : has proc s.waitqueue ≡ true =
      rw at (ground (arith, has-append proc xs (proc ∷ ys))) in
    let not_null = has-not_null proc s.waitqueue here q.wait_not_null in
    let out_null = unlink-without 0 proc s.runqueue q.run_not_null in
    let out_wait = held.run_wait proc (ground (arith)) in
    let out_dead = held.run_dead proc (ground (arith)) in
    record {
      queued = record {
        held = held;
        run_not_null = ground (arith, not_null, out_null);
        wait_not_null = unlink-without 0 proc s.waitqueue q.wait_not_null;
        run_state = λ p m. ground (arith, q.run_state p, has-unlink p proc s.runqueue);
        wait_state = λ p m. ground (arith, q.wait_state p, has-unlink p proc s.waitqueue);
        dead_state = λ p m. ground (arith, q.dead_state p, has-unlink p proc s.deadqueue);
        idle_not_null = q.idle_not_null;
        idle_run = q.idle_run;
        idle_wait = unlink-out s.idle_tsk h.waitqueue proc s.waitqueue q.idle_wait;
        idle_dead = unlink-out s.idle_tsk h.deadqueue proc s.deadqueue q.idle_dead;
      };
      current = λ d e. joined (v.current d e) (λ z. other (e ∙ ap some (sym z)));
    }
  where
    joined : {d : ℕ} → IsCurrent h s d → proc ≢ d → IsCurrent h (process_wakeup proc s) d
    joined {d} cur ne = record {
      not_null = cur.not_null;
      free = λ r.
          let still : is_running (s.state d) ≡ true = ground (arith, r) in
          let old = cur.free still in
          let out = unlink-out d h.runqueue proc s.runqueue old.not_run in
          record {
            not_run = ground (arith, out);
            not_wait = unlink-out d h.waitqueue proc s.waitqueue old.not_wait;
            not_dead = unlink-out d h.deadqueue proc s.deadqueue old.not_dead;
          };
    }

requeue-IsQueued :
    (h : Heads) (l : Links) (s : Sched) (c stack : ℕ)
    → IsQueued h l s
    → IsCurrent h s c
    → IsQueued h (requeue_links h (is_running (s.state c)) c l) (requeue c stack s)
unfolding requeue
requeue-IsQueued h l s c stack q cur = record {
  held = requeue-Holds h l s c stack (is_running (s.state c)) refl q.held cur.free;
  run_not_null = requeue-not_null s c stack q.run_not_null cur.not_null;
  wait_not_null = q.wait_not_null;
  run_state = λ p m. in_run p (is_running (s.state c)) refl m;
  wait_state = q.wait_state;
  dead_state = q.dead_state;
  idle_not_null = q.idle_not_null;
  idle_run = q.idle_run;
  idle_wait = q.idle_wait;
  idle_dead = q.idle_dead;
}
  where
    in_run :
        (p : ℕ) (b : Bool)
        → is_running (s.state c) ≡ b
        → has p (if b then s.runqueue ++ c ∷ [] else s.runqueue) ≡ true
        → s.state p ≡ running
    in_run p false e m = q.run_state p m
    in_run p true e m = elim (Bool-cases (p == c)) [
      | inl same ↦ rw ((==_iff p c).0 same) (running_is (s.state c) e)
      | inr other ↦ q.run_state p (ground (arith, has-append p s.runqueue (c ∷ [])))
    ]

take_next-IsSound :
    (h : Heads) (l : Links) (s : Sched) (qs : List ℕ)
    → s.runqueue ≡ qs
    → IsQueued h l s
    → IsSound h (list_pop h.runqueue l).1 (take_next qs s)
unfolding take_next
take_next-IsSound h l s [] e q = record {
  queued = record {
    held = (take_next-Holds h l s [] e q.held).0;
    run_not_null = refl;
    wait_not_null = q.wait_not_null;
    run_state = λ p m. ground (arith, m);
    wait_state = q.wait_state;
    dead_state = q.dead_state;
    idle_not_null = q.idle_not_null;
    idle_run = q.idle_run;
    idle_wait = q.idle_wait;
    idle_dead = q.idle_dead;
  };
  current = λ d t. subst (IsCurrent h (take_next [] s)) (some_is t) (record {
    not_null = q.idle_not_null;
    free = λ r. record { not_run = q.idle_run; not_wait = q.idle_wait; not_dead = q.idle_dead };
  });
}
take_next-IsSound h l s (p ∷ ps) e q = record {
  queued = record {
    held = (take_next-Holds h l s (p ∷ ps) e q.held).0;
    run_not_null = tail_not_null (rw e at q.run_not_null);
    wait_not_null = q.wait_not_null;
    run_state = λ n m. q.run_state n (rw e (ground (arith, m)));
    wait_state = q.wait_state;
    dead_state = q.dead_state;
    idle_not_null = q.idle_not_null;
    idle_run = q.idle_run;
    idle_wait = q.idle_wait;
    idle_dead = q.idle_dead;
  };
  current = λ d t. subst (IsCurrent h (take_next (p ∷ ps) s)) (some_is t) (record {
    not_null = has-not_null p s.runqueue here q.run_not_null;
    free = λ r. record {
      not_run = ground (arith, run.distinct);
      not_wait = q.held.run_wait p in_ring;
      not_dead = q.held.run_dead p in_ring;
    };
  });
}
  where
    here : has p s.runqueue ≡ true
    here = rw e (ground arith)

    in_ring : has p (h.runqueue ∷ s.runqueue) ≡ true
    in_ring = ground (arith, here)

    run : IsRing l h.runqueue (p ∷ ps)
    run = rw e at q.held.run

    tail_not_null : 0 ∉ (p ∷ ps) → 0 ∉ ps
    tail_not_null out = ground arith

pub pick_new_task-IsSound :
    (h : Heads) (l : Links) (s s' : Sched) (stack : ℕ)
    → IsSound h l s
    → pick_new_task stack s ≡ ok s'
    → IsSound h (switch_links h s l).1 s'
unfolding requeue
pick_new_task-IsSound h l s s' stack v e = go s.current_tsk refl
  where
    go : (o : Option ℕ) → s.current_tsk ≡ o → IsSound h (switch_links h s l).1 s'
    go none task =
        let run : take_next s.runqueue s ≡ s' = ok_is (sym (pick_new_task-none stack s task) ∙ e) in
        rw (switch_links-none h s l task, ← run) (take_next-IsSound h l s s.runqueue refl v.queued)
    go (some c) task = elim (Bool-cases (stack == 0)) [
      | inl z ↦ absurd (not_halted (rw (pick_new_task-some stack c s task, z) at e))
      | inr nz ↦
          let after = requeue c stack s in
          let run : take_next after.runqueue after ≡ s' =
            ok_is (rw (pick_new_task-some stack c s task, nz) at e) in
          rw (switch_links-some h s l c task, ← run)
            (take_next-IsSound h (requeue_links h (is_running (s.state c)) c l) after after.runqueue
              refl (requeue-IsQueued h l s c stack v.queued (v.current c task)))
    ]
