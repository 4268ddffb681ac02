-- ===== src/Process/Links/Tracked.antt =====
-- No process is lost from the queues.
use lpc17xx_network.Base.{
  ℕ, ◌≡◌, ◌≢◌, refl, sym, arith, ◌∙◌, Bool, true, false, ◌||◌, ◌==◌, ==_iff, List, [], ◌∷◌, Option,
  none, some, inl, inr, Bool-cases,
}
use lpc17xx_network.Base.Run.{ok}
use lpc17xx_network.LinkedList.{Links}
use lpc17xx_network.LinkedList.Ring.{has, has-append}
use lpc17xx_network.Process.{
  ProcessState, waiting, Sched, is_running, unlink, process_wakeup, process_wait, process_finish,
  process_spawn, requeue, take_next, pick_new_task, idle_round,
}
use lpc17xx_network.Process.Links.{Heads}
use lpc17xx_network.Process.Links.Ends.{idle_round-rest}
use lpc17xx_network.Process.Links.Switch.{pick_new_task-none, pick_new_task-some, ok_is, not_halted}
use lpc17xx_network.Process.Links.Steps.{
  Happens, waits, finishes, spawns, wakes, switches, idles, Reaches, here, next,
}

abbrev pub is_waiting : ProcessState → Bool
is_waiting waiting = true
is_waiting _ = false

abbrev pub is_current : ℕ → Option ℕ → Bool
is_current p none = false
is_current p (some c) = p == c

-- A process that is ready runs or is in the run queue, the idle task apart; one that waits is in
-- the wait queue.
pub record IsTracked (s : Sched) : Type 0 where
  pub ready :
      (p : ℕ)
      → is_running (s.state p) ≡ true
      → p ≢ s.idle_tsk
      → (has p s.runqueue || is_current p s.current_tsk) ≡ true
  pub asleep : (p : ℕ) → is_waiting (s.state p) ≡ true → has p s.waitqueue ≡ true

has_unlinked :
    (n p : ℕ) (qs : List ℕ) → (n == p) ≡ false → has n qs ≡ true → has n (unlink p qs) ≡ true
unfolding unlink
has_unlinked n p [] e m = m
has_unlinked n p (q ∷ qs) e m = ground (arith, has_unlinked n p qs)

process_wait-IsTracked :
    (s : Sched) (c : ℕ) → s.current_tsk ≡ some c → IsTracked s → IsTracked (process_wait c s)
unfolding process_wait
process_wait-IsTracked s c task v = record {
  ready = λ p r ne. elim (Bool-cases (p == c)) [
    | inl same ↦ absurd (asleep_now p same r)
    | inr other ↦ v.ready p (ground (arith, r, other)) ne
  ];
  asleep = λ p r. elim (Bool-cases (p == c)) [
    | inl same ↦ ground (arith, same)
    | inr other ↦ ground (arith, v.asleep p, r, other)
  ];
}
  where
    asleep_now : (p : ℕ) → (p == c) ≡ true → is_running ((process_wait c s).state p) ≢ true
    asleep_now p same r = ground (arith, same, r)

process_finish-IsTracked : (s : Sched) (c : ℕ) → IsTracked s → IsTracked (process_finish c s)
unfolding process_finish
process_finish-IsTracked s c v = record {
  ready = λ p r ne. elim (Bool-cases (p == c)) [
    | inl same ↦ absurd (ended p same r)
    | inr other ↦ v.ready p (ground (arith, r, other)) ne
  ];
  asleep = λ p r. elim (Bool-cases (p == c)) [
    | inl same ↦ absurd (ended_too p same r)
    | inr other ↦ v.asleep p (ground (arith, r, other))
  ];
}
  where
    ended : (p : ℕ) → (p == c) ≡ true → is_running ((process_finish c s).state p) ≢ true
    ended p same r = ground (arith, same, r)

    ended_too : (p : ℕ) → (p == c) ≡ true → is_waiting ((process_finish c s).state p) ≢ true
    ended_too p same r = ground (arith, same, r)

process_spawn-IsTracked :
    (s : Sched) (newproc stack : ℕ) → IsTracked s → IsTracked (process_spawn newproc stack s)
unfolding process_spawn
process_spawn-IsTracked s newproc stack v = record {
  ready = λ p r ne. elim (Bool-cases (p == newproc)) [
    | inl same ↦ ground (arith, same)
    | inr other ↦ let old = v.ready p (ground (arith, r, other)) ne in ground (arith, other, old)
  ];
  asleep = λ p r. elim (Bool-cases (p == newproc)) [
    | inl same ↦ absurd (awake p same r)
    | inr other ↦ v.asleep p (ground (arith, r, other))
  ];
}
  where
    awake :
        (p : ℕ)
        → (p == newproc) ≡ true
        → is_waiting ((process_spawn newproc stack s).state p) ≢ true
    awake p same r = ground (arith, same, r)

process_wakeup-IsTracked : (s : Sched) (proc : ℕ) → IsTracked s → IsTracked (process_wakeup proc s)
unfolding process_wakeup
process_wakeup-IsTracked s proc v = record {
  ready = λ p r ne. elim (Bool-cases (p == proc)) [
    | inl same ↦ ground (arith, same)
    | inr other ↦
        let old = v.ready p (ground (arith, r, other)) ne in
        ground (arith, other, old, has_unlinked p proc s.runqueue)
  ];
  asleep = λ p r. elim (Bool-cases (p == proc)) [
    | inl same ↦ absurd (awake p same r)
    | inr other ↦ has_unlinked p proc s.waitqueue other (v.asleep p (ground (arith, r, other)))
  ];
}
  where
    awake : (p : ℕ) → (p == proc) ≡ true → is_waiting ((process_wakeup proc s).state p) ≢ true
    awake p same r = ground (arith, same, r)

idle_round-IsTracked : (s : Sched) → IsTracked s → IsTracked (idle_round s).1
idle_round-IsTracked s v = rw (idle_round-rest s) (record { ready = v.ready; asleep = v.asleep })

-- The current process is accounted for before the next one is taken.
take_next-IsTracked :
    (s : Sched) (qs : List ℕ)
    → s.runqueue ≡ qs
    → ((p : ℕ) → is_running (s.state p) ≡ true → p ≢ s.idle_tsk → has p s.runqueue ≡ true)
    → ((p : ℕ) → is_waiting (s.state p) ≡ true → has p s.waitqueue ≡ true)
    → IsTracked (take_next qs s)
unfolding take_next
take_next-IsTracked s [] e ready asleep = record {
  ready = λ p r ne. absurd (none_left (rw e at ready p r ne));
  asleep = asleep;
}
  where
    none_left : false ≢ true
    none_left z = cc
take_next-IsTracked s (q ∷ qs) e ready asleep = record {
  ready = λ p r ne. let m : has p (q ∷ qs) ≡ true = rw e at ready p r ne in ground (arith, m);
  asleep = asleep;
}

requeue-ready :
    (s : Sched) (c stack p : ℕ)
    → s.current_tsk ≡ some c
    → IsTracked s
    → is_running (s.state p) ≡ true
    → p ≢ s.idle_tsk
    → has p (requeue c stack s).runqueue ≡ true
unfolding requeue
requeue-ready s c stack p task v r ne =
    let old : (has p s.runqueue || (p == c)) ≡ true = rw task at v.ready p r ne in
    elim (Bool-cases (p == c)) [
      | inl same ↦
          let on : is_running (s.state c) ≡ true = rw ((==_iff p c).0 same) at r in
          rw on (ground (arith, has-append p s.runqueue (c ∷ []), same))
      | inr other ↦
          let queued : has p s.runqueue ≡ true = ground (arith, old, other) in
          elim (Bool-cases (is_running (s.state c))) [
            | inl on ↦ rw on (ground (arith, has-append p s.runqueue (c ∷ []), queued))
            | inr off ↦ rw off queued
          ]
    ]

pick_new_task-IsTracked :
    (s s' : Sched) (stack : ℕ) → IsTracked s → pick_new_task stack s ≡ ok s' → IsTracked s'
unfolding requeue
pick_new_task-IsTracked s s' stack v e = go s.current_tsk refl
  where
    alone : {b : Bool} → (b || false) ≡ true → b ≡ true
    alone h = ground (arith, h)

    go : (o : Option ℕ) → s.current_tsk ≡ o → IsTracked s'
    go none task =
        let run : take_next s.runqueue s ≡ s' = ok_is (sym (pick_new_task-none stack s task) ∙ e) in
        rw (← run) (
          take_next-IsTracked s s.runqueue refl (λ p r ne. alone (rw task at v.ready p r ne))
            v.asleep)
    go (some c) task = elim (Bool-cases (stack == 0)) [
      | inl z ↦ absurd (not_halted (rw (pick_new_task-some stack c s task, z) at e))
      | inr nz ↦
          let after = requeue c stack s in
          let run : take_next after.runqueue after ≡ s' =
            ok_is (rw (pick_new_task-some stack c s task, nz) at e) in
          rw (← run) (
            take_next-IsTracked after after.runqueue refl
              (λ p r ne. requeue-ready s c stack p task v r ne) v.asleep)
    ]

Happens-IsTracked :
    {h : Heads} {l : Links} {s : Sched} {k : Links} {t : Sched}
    → Happens h l s k t
    → IsTracked s
    → IsTracked t
Happens-IsTracked {h} {l} {s} (waits c task on other) v = process_wait-IsTracked s c task v
Happens-IsTracked {h} {l} {s} (finishes c task on other) v = process_finish-IsTracked s c v
Happens-IsTracked {h} {l} {s} (spawns p stack f not_null other) v =
    process_spawn-IsTracked s p stack v
Happens-IsTracked {h} {l} {s} (wakes p xs ys at other) v = process_wakeup-IsTracked s p v
Happens-IsTracked {h} {l} {s} (switches stack s' e) v = pick_new_task-IsTracked s s' stack v e
Happens-IsTracked {h} {l} {s} idles v = idle_round-IsTracked s v

-- No process is lost.
pub Reaches-IsTracked :
    (h : Heads) (l : Links) (s : Sched) (k : Links) (t : Sched)
    → IsTracked s
    → Reaches h l s k t
    → IsTracked t
Reaches-IsTracked h l s _ _ v here = v
Reaches-IsTracked h l s _ _ v (next {k} {m} {t} {u} r e) =
    Happens-IsTracked e (Reaches-IsTracked h l s k t v r)
