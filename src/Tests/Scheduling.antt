-- ===== src/Tests/Scheduling.antt =====
-- A process that is spawned, waits and is woken, on the queues in memory.
use lpc17xx_network.Base.{ℕ, ◌≡◌, ◌≤◌, length, refl, arith, [], none, some}
use lpc17xx_network.Base.Run.{ok}
use lpc17xx_network.LinkedList.{Links}
use lpc17xx_network.Process.{
  Sched, finished, process_spawn, process_wait, process_wakeup, requeue, take_next, pick_new_task,
}
use lpc17xx_network.Process.Links.{Heads, IsFree, wait_links, wakeup_links}
use lpc17xx_network.Process.Links.Ends.{spawn_links}
use lpc17xx_network.Process.Links.Switch.{switch_links}
use lpc17xx_network.Process.Links.Sound.{IsSound}
use lpc17xx_network.Process.Links.Tracked.{IsTracked}
use lpc17xx_network.Process.Links.Fair.{Reaches-switches}
use lpc17xx_network.Process.Robin
use lpc17xx_network.Process.Links.Steps.{
  Happens, Reaches, here, next, spawns, switches, waits, wakes, Reaches-IsSound,
}

abbrev heads : Heads
heads = record { runqueue = 10; waitqueue = 20; deadqueue = 30 }

-- Three empty lists.
abbrev empty : Links
empty = record { next = λ (n : ℕ). n; prev = λ (n : ℕ). n }

abbrev nobody : Sched
nobody = record {
  runqueue = [];
  waitqueue = [];
  deadqueue = [];
  current_tsk = none;
  idle_tsk = 9;
  state = λ (q : ℕ). finished;
  cur_stack = λ (q : ℕ). 64;
}

nobody-IsSound : IsSound heads empty nobody
nobody-IsSound = record {
  queued = record {
    held = record {
      run = record { chain = (refl, refl); distinct = (refl, tt) };
      wait = record { chain = (refl, refl); distinct = (refl, tt) };
      dead = record { chain = (refl, refl); distinct = (refl, tt) };
      run_wait = λ n h. ground arith;
      run_dead = λ n h. ground arith;
      wait_dead = λ n h. ground arith;
    };
    run_not_null = refl;
    wait_not_null = refl;
    run_state = λ p m. absurd (ground (arith, m));
    wait_state = λ p m. absurd (ground (arith, m));
    dead_state = λ p m. absurd (ground (arith, m));
    idle_not_null = omega arith;
    idle_run = refl;
    idle_wait = refl;
    idle_dead = refl;
  };
  current = λ c e. absurd (cc);
}

abbrev spawned : Sched
spawned = process_spawn 1 64 nobody

abbrev runs : Sched
runs = record spawned { runqueue = []; current_tsk = some 1 }

abbrev sleeps : Sched
sleeps = process_wait 1 runs

abbrev switched : Sched
switched = take_next [] (requeue 1 64 sleeps)

abbrev links_asleep : Links
links_asleep = wait_links heads 1 (switch_links heads spawned (spawn_links heads 1 empty)).1

abbrev links_woken : Links
links_woken = wakeup_links heads 1 (switch_links heads sleeps links_asleep).1

way : Reaches heads empty nobody links_woken (process_wakeup 1 switched)
unfolding process_spawn process_wait requeue take_next pick_new_task
way =
    let free : IsFree heads nobody 1 = record {
      not_run = refl;
      not_wait = refl;
      not_dead = refl;
    } in
    let spawn : Happens heads empty nobody (spawn_links heads 1 empty) spawned =
      spawns 1 64 free (omega arith) (λ e. cc) in
    let running : Reaches heads empty nobody _ runs =
      next (next here spawn) (switches 0 runs refl) in
    next (next (next running (waits 1 refl refl (omega arith))) (switches 64 switched refl))
      (wakes 1 [] [] refl (λ e. ground (arith, e)))

Reaches-IsSound_example : IsSound heads links_woken (process_wakeup 1 switched)
Reaches-IsSound_example =
    Reaches-IsSound heads empty nobody links_woken (process_wakeup 1 switched) nobody-IsSound way

nobody-IsTracked : IsTracked nobody
nobody-IsTracked = record { ready = λ p r ne. absurd (cc); asleep = λ p r. absurd (cc) }

Reaches-switches_example :
    (n : ℕ) × (t' : Sched) × (n ≤ length (process_wakeup 1 switched).runqueue)
    × (Robin.switches n 64 (process_wakeup 1 switched) ≡ ok t')
    × (t'.current_tsk ≡ some 1)
unfolding process_wakeup take_next requeue process_wait process_spawn
Reaches-switches_example =
    Reaches-switches heads empty nobody links_woken (process_wakeup 1 switched) 1 64 nobody-IsSound
      nobody-IsTracked way refl (omega arith) (omega arith)
