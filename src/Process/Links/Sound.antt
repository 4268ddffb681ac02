-- ===== src/Process/Links/Sound.antt =====
-- The queues of process.c between its operations: in memory, and with the states of the processes.
use lpc17xx_network.Base.{
  ℕ, ◌≡◌, ◌≢◌, refl, sym, arith, ◌∙◌, ap, Bool, true, false, ◌==◌, ==_refl, List, [], ◌∷◌, some,
}
use lpc17xx_network.LinkedList.{Links}
use lpc17xx_network.LinkedList.Ring.{has, ◌∉◌}
use lpc17xx_network.Process.{
  ProcessState, running, waiting, finished, Sched, put_state, is_running, process_wait,
  process_finish, process_spawn, idle_round,
}
use lpc17xx_network.Process.Links.{
  Heads, Holds, IsFree, wait_links, finish_links, process_wait-Holds, process_finish-Holds,
}
use lpc17xx_network.Process.Links.Ends.{
  spawn_links, idle_links, process_spawn-Holds, rest_of, idle_round-rest, idle_round-Holds,
}

-- Each queue is a well-formed list of processes in its own state. The idle task is in the run
-- queue at most.
pub record IsQueued (h : Heads) (l : Links) (s : Sched) : Type 0 where
  pub held : Holds h l s
  pub run_not_null : 0 ∉ s.runqueue
  pub wait_not_null : 0 ∉ s.waitqueue
  pub run_state : (p : ℕ) → has p s.runqueue ≡ true → s.state p ≡ running
  pub wait_state : (p : ℕ) → has p s.waitqueue ≡ true → s.state p ≡ waiting
  pub dead_state : (p : ℕ) → has p s.deadqueue ≡ true → s.state p ≡ finished
  pub idle_not_null : s.idle_tsk ≢ 0
  pub idle_run : s.idle_tsk ∉ (h.runqueue ∷ [])
  pub idle_wait : s.idle_tsk ∉ (h.waitqueue ∷ s.waitqueue)
  pub idle_dead : s.idle_tsk ∉ (h.deadqueue ∷ s.deadqueue)

-- The current process is in no queue while it runs.
pub record IsCurrent (h : Heads) (s : Sched) (c : ℕ) : Type 0 where
  pub not_null : c ≢ 0
  pub free : is_running (s.state c) ≡ true → IsFree h s c

pub record IsSound (h : Heads) (l : Links) (s : Sched) : Type 0 where
  pub queued : IsQueued h l s
  pub current : (c : ℕ) → s.current_tsk ≡ some c → IsCurrent h s c

pub some_is : {a b : ℕ} → some a ≡ some b → a ≡ b
some_is e = cc

-- A process whose state was changed to another one does not run.
stopped :
    (c d : ℕ) (st : ProcessState) (state : ℕ → ProcessState)
    → is_running st ≡ false
    → c ≡ d
    → is_running (put_state c st state d) ≢ true
stopped c d st state off e r =
    let same : (d == c) ≡ true = rw e (==_refl d) in
    let on : is_running st ≡ true = rw same at r in nowhere on off
  where
    nowhere : {x : Bool} → x ≡ true → x ≢ false
    nowhere a b = cc

pub process_wait-IsSound :
    (h : Heads) (l : Links) (s : Sched) (c : ℕ)
    → IsSound h l s
    → s.current_tsk ≡ some c
    → is_running (s.state c) ≡ true
    → c ≢ s.idle_tsk
    → IsSound h (wait_links h c l) (process_wait c s)
unfolding process_wait
process_wait-IsSound h l s c v task on other =
    let q = v.queued in
    let cur = v.current c task in
    let f = cur.free on in
    let not_run = f.not_run in
    let not_dead = f.not_dead in
    let not_null = cur.not_null in
    record {
      queued = record {
        held = process_wait-Holds h l s c q.held f;
        run_not_null = q.run_not_null;
        wait_not_null = ground (arith, q.wait_not_null);
        run_state = λ p m. ground (arith, q.run_state p);
        wait_state = λ p m. ground (arith, q.wait_state p);
        dead_state = λ p m. ground (arith, q.dead_state p);
        idle_not_null = q.idle_not_null;
        idle_run = q.idle_run;
        idle_wait = ground (arith, q.idle_wait);
        idle_dead = q.idle_dead;
      };
      current = λ d e. record {
        not_null = (v.current d e).not_null;
        free = λ r. absurd (stopped c d waiting s.state refl (some_is (sym task ∙ e)) r);
      };
    }

pub process_finish-IsSound :
    (h : Heads) (l : Links) (s : Sched) (c : ℕ)
    → IsSound h l s
    → s.current_tsk ≡ some c
    → is_running (s.state c) ≡ true
    → c ≢ s.idle_tsk
    → IsSound h (finish_links h c l) (process_finish c s)
unfolding process_finish
process_finish-IsSound h l s c v task on other =
    let q = v.queued in
    let f = (v.current c task).free on in
    let not_run = f.not_run in
    let not_wait = f.not_wait in
    record {
      queued = record {
        held = process_finish-Holds h l s c q.held f;
        run_not_null = q.run_not_null;
        wait_not_null = q.wait_not_null;
        run_state = λ p m. ground (arith, q.run_state p);
        wait_state = λ p m. ground (arith, q.wait_state p);
        dead_state = λ p m. ground (arith, q.dead_state p);
        idle_not_null = q.idle_not_null;
        idle_run = q.idle_run;
        idle_wait = q.idle_wait;
        idle_dead = ground (arith, q.idle_dead);
      };
      current = λ d e. record {
        not_null = (v.current d e).not_null;
        free = λ r. absurd (stopped c d finished s.state refl (some_is (sym task ∙ e)) r);
      };
    }

-- The current process stays out of the queues when another one is put into the run queue.
pub process_spawn-IsSound :
    (h : Heads) (l : Links) (s : Sched) (newproc stack : ℕ)
    → IsSound h l s
    → IsFree h s newproc
    → newproc ≢ 0
    → s.current_tsk ≢ some newproc
    → IsSound h (spawn_links h newproc l) (process_spawn newproc stack s)
unfolding process_spawn
process_spawn-IsSound h l s newproc stack v f not_null other =
    let q = v.queued in
    let not_wait = f.not_wait in
    let not_dead = f.not_dead in
    record {
      queued = record {
        held = process_spawn-Holds h l s newproc stack q.held f;
        run_not_null = ground (arith, q.run_not_null);
        wait_not_null = q.wait_not_null;
        run_state = λ p m. ground (arith, q.run_state p);
        wait_state = λ p m. ground (arith, q.wait_state p);
        dead_state = λ p m. ground (arith, q.dead_state p);
        idle_not_null = q.idle_not_null;
        idle_run = q.idle_run;
        idle_wait = q.idle_wait;
        idle_dead = q.idle_dead;
      };
      current = λ d e. joined (v.current d e) (λ z. other (e ∙ ap some (sym z)));
    }
  where
    joined : {d : ℕ} → IsCurrent h s d → newproc ≢ d → IsCurrent h (process_spawn newproc stack s) d
    joined {d} cur ne = record {
      not_null = cur.not_null;
      free = λ r.
          let still : is_running (s.state d) ≡ true = ground (arith, r) in
          let old = cur.free still in
          record {
            not_run = ground (arith, old.not_run);
            not_wait = old.not_wait;
            not_dead = old.not_dead;
          };
    }

pub idle_round-IsSound :
    (h : Heads) (l : Links) (s : Sched)
    → IsSound h l s
    → IsSound h (idle_links h l).1 (idle_round s).1
idle_round-IsSound h l s v =
    let q = v.queued in
    let held = (idle_round-Holds h l s q.held).0 in
    rw (idle_round-rest s) (record {
      queued = record {
        held = rw (idle_round-rest s) at held;
        run_not_null = q.run_not_null;
        wait_not_null = q.wait_not_null;
        run_state = q.run_state;
        wait_state = q.wait_state;
        dead_state = λ p m. q.dead_state p (rest_in p s.deadqueue m);
        idle_not_null = q.idle_not_null;
        idle_run = q.idle_run;
        idle_wait = q.idle_wait;
        idle_dead = rest_out h.deadqueue s.idle_tsk s.deadqueue q.idle_dead;
      };
      current = λ d e.
          let cur = v.current d e in
          record {
            not_null = cur.not_null;
            free = λ r.
                let f = cur.free r in
                record {
                  not_run = f.not_run;
                  not_wait = f.not_wait;
                  not_dead = rest_out h.deadqueue d s.deadqueue f.not_dead;
                };
          };
    })
  where
    rest_in : (p : ℕ) (qs : List ℕ) → has p (rest_of qs) ≡ true → has p qs ≡ true
    rest_in p [] m = m
    rest_in p (x ∷ xs) m = ground arith

    rest_out : (a p : ℕ) (qs : List ℕ) → p ∉ (a ∷ qs) → p ∉ (a ∷ rest_of qs)
    rest_out a p [] m = m
    rest_out a p (x ∷ xs) m = ground arith
