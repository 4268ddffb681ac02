-- ===== src/Process/Spawn/Laws.antt =====
-- Where the first stack of a process lies, and the turns of the first threads.
use lpc17xx_network.Base.{
  ℕ, suc, ◌≡◌, ◌≢◌, refl, ◌∙◌, ap, arith, List, [], ◌∷◌, ◌++◌, true, ◌||◌, ◌==◌, none, some, length,
  Bool-cases, inl, inr,
}
use lpc17xx_network.Base.Run.{ok}
use lpc17xx_network.LinkedList.Ring.{has}
use lpc17xx_network.Process.{Sched, running, process_spawn, pick_new_task, take_next}
use lpc17xx_network.Process.Queues.{rev_onto}
use lpc17xx_network.Process.Robin.{switches, switches-reaches}
use lpc17xx_network.Process.Spawn.{Thread, spawn, spawn_all, process_init}

abbrev pub selves : List Thread → List ℕ
selves [] = []
selves (t ∷ ts) = t.self ∷ selves ts

module _ (finish : ℕ) where
  spawn_all-runqueue :
      (ts : List Thread) (s : Sched)
      → ((spawn_all finish ts s).runqueue ≡ rev_onto (selves ts) s.runqueue)
        × ((spawn_all finish ts s).current_tsk ≡ s.current_tsk)
  unfolding spawn_all spawn process_spawn
  spawn_all-runqueue [] s = (refl, refl)
  spawn_all-runqueue (t ∷ ts) s = spawn_all-runqueue ts (spawn finish t s)

  spawn_all-keeps :
      (ts : List Thread) (s : Sched) (q : ℕ)
      → s.state q ≡ running
      → (spawn_all finish ts s).state q ≡ running
  unfolding spawn_all spawn process_spawn
  spawn_all-keeps [] s q e = e
  spawn_all-keeps (t ∷ ts) s q e = spawn_all-keeps ts (spawn finish t s) q (ground arith)

  spawn_all-running :
      (ts : List Thread) (s : Sched) (q : ℕ)
      → has q (selves ts) ≡ true
      → (spawn_all finish ts s).state q ≡ running
  unfolding spawn_all spawn process_spawn
  spawn_all-running [] s q h = absurd (ground arith)
  spawn_all-running (t ∷ ts) s q h = elim (Bool-cases (q == t.self)) [
    | inl e ↦ spawn_all-keeps ts (spawn finish t s) q (ground arith)
    | inr e ↦ spawn_all-running ts (spawn finish t s) q (ground arith)
  ]

has-rev_onto : (q : ℕ) (xs ys : List ℕ) → has q (rev_onto xs ys) ≡ (has q xs || has q ys)
has-rev_onto q [] ys = refl
has-rev_onto q (x ∷ xs) ys = has-rev_onto q xs (x ∷ ys) ∙ ground arith

has-front : (q : ℕ) (xs ys : List ℕ) → has q xs ≡ true → has q (xs ++ ys) ≡ true
has-front q [] ys h = absurd (ground arith)
has-front q (x ∷ xs) ys h = ground (arith, has-front q xs ys)

-- A process that is to have its turn is one of the threads.
listed :
    (threads : List Thread) (q first p : ℕ) (front back : List ℕ)
    → rev_onto (selves threads) [] ≡ first ∷ (front ++ p ∷ back)
    → has q (first ∷ front) ≡ true
    → has q (selves threads) ≡ true
listed threads q first p front back order m =
    let among = has-front q (first ∷ front) (p ∷ back) m in
    let all = ap (has q) order in
    let same = has-rev_onto q (selves threads) [] in ground (arith, among, all, same)

pick_new_task-boot :
    (s : Sched) (first : ℕ) (rest : List ℕ)
    → s.current_tsk ≡ none
    → s.runqueue ≡ first ∷ rest
    → pick_new_task 0 s ≡ ok (record s { runqueue = rest; current_tsk = some first })
unfolding pick_new_task take_next
pick_new_task-boot s first rest idle queue = rw (pick_new_task, idle, queue, take_next) refl

-- The first task switch after process_init.
pub process_init-first :
    (finish : ℕ) (threads : List Thread) (idle : Thread) (s : Sched) (first : ℕ) (front : List ℕ)
    → s.runqueue ≡ []
    → s.current_tsk ≡ none
    → rev_onto (selves threads) [] ≡ first ∷ front
    → (next : Sched) × (pick_new_task 0 (process_init finish threads idle s) ≡ ok next)
      × (next.current_tsk ≡ some first)
      × (next.runqueue ≡ front)
unfolding process_init
process_init-first finish threads idle s first front empty no_task order =
    let (queue, task) = spawn_all-runqueue finish threads s in
    let started = process_init finish threads idle s in
    (
      record started { runqueue = front; current_tsk = some first },
      pick_new_task-boot started first front (task ∙ no_task)
          (queue ∙ ap (rev_onto (selves threads)) empty ∙ order),
      refl,
      refl,
    )

-- After process_init on empty queues, the first task switch starts the thread that is listed
-- last, and any other listed thread gets the processor after as many more switches that hand in a
-- stack as its place in the reversed list says, when the processes before it do not wait.
pub process_init-turns :
    (finish stack : ℕ) (threads : List Thread) (idle : Thread) (s : Sched) (first p : ℕ)
    (front back : List ℕ)
    → s.runqueue ≡ []
    → s.current_tsk ≡ none
    → rev_onto (selves threads) [] ≡ first ∷ (front ++ p ∷ back)
    → stack ≢ 0
    → (s1 : Sched) × (s2 : Sched) × (pick_new_task 0 (process_init finish threads idle s) ≡ ok s1)
      × (s1.current_tsk ≡ some first)
      × (switches (suc (length front)) stack s1 ≡ ok s2)
      × (s2.current_tsk ≡ some p)
unfolding process_init
process_init-turns finish stack threads idle s first p front back empty no_task order h =
    let (queue, task) = spawn_all-runqueue finish threads s in
    let started = process_init finish threads idle s in
    let s1 = record started { runqueue = front ++ p ∷ back; current_tsk = some first } in
    let queued = queue ∙ ap (rev_onto (selves threads)) empty ∙ order in
    let ready = λ (q : ℕ) (m : has q (first ∷ front) ≡ true).
      spawn_all-running finish threads s q (listed threads q first p front back order m) in
    let (s2, ran, current, left) = switches-reaches front s1 first p stack back refl ready refl h in
    (
      s1,
      s2,
      pick_new_task-boot started first (front ++ p ∷ back) (task ∙ no_task) queued,
      refl,
      ran,
      current,
    )
