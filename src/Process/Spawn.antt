-- ===== src/Process/Spawn.antt =====
-- create_process and process_init of process.c: the first stack of a process, and the threads that
-- the system begins with.
pub mod Laws
use lpc17xx_network.Base.{
  ℕ, zero, suc, ◌+◌, ◌-◌, ◌%◌, ◌^◌, ◌≤◌, ◌<◌, ◌≡◌, ◌≢◌, refl, ◌∙◌, ap, arith, List, [], ◌∷◌, ◌++◌,
  Option, none, some, length, add32, sub32, if◌then◌else◌, ◌==◌,
}
use lpc17xx_network.Base.Run.{Run, ok}
use lpc17xx_network.Process.{Sched, ProcessState, running, process_spawn, pick_new_task, take_next}
use lpc17xx_network.Process.Queues.{rev_onto}

abbrev pub stack_sz : ℕ
stack_sz = 0x400

-- hw_stack_ctx and sw_stack_ctx, each of eight words.
pub record HwStackCtx : Type 0 where
  pub r0 : ℕ
  pub r1 : ℕ
  pub r2 : ℕ
  pub r3 : ℕ
  pub r12 : ℕ
  pub lr : ℕ
  pub pc : ℕ
  pub psr : ℕ

pub record SwStackCtx : Type 0 where
  pub r4 : ℕ
  pub r5 : ℕ
  pub r6 : ℕ
  pub r7 : ℕ
  pub r8 : ℕ
  pub r9 : ℕ
  pub r10 : ℕ
  pub r11 : ℕ

-- The process_t at `self`, with the two contexts and their addresses.
pub record Created : Type 0 where
  pub self : ℕ
  pub stack_alloc : ℕ
  pub cur_stack : ℕ
  pub hw_at : ℕ
  pub hw : HwStackCtx
  pub sw : SwStackCtx

-- create_process; `self` and `stack_alloc` are what get_mem returned, and `finish` is the address
-- of process_finish.
unfoldable pub create_process : ℕ → ℕ → ℕ → ℕ → ℕ → Created
create_process finish self stack_alloc start arg =
    let hw_stack = sub32 (add32 stack_alloc stack_sz) 32 in
    record {
      self = self;
      stack_alloc = stack_alloc;
      cur_stack = sub32 hw_stack 32;
      hw_at = hw_stack;
      hw = record {
        r0 = arg;
        r1 = 0;
        r2 = 0;
        r3 = 0;
        r12 = 0;
        lr = finish;
        pc = start;
        psr = 0x01000000;
      };
      sw = record { r4 = 0; r5 = 0; r6 = 0; r7 = 0; r8 = 0; r9 = 0; r10 = 0; r11 = 0 };
    }

-- A thread of the section .threads, with the blocks that get_mem returns for it.
pub record Thread : Type 0 where
  pub start : ℕ
  pub self : ℕ
  pub stack_alloc : ℕ

-- process_spawn as a whole.
unfoldable pub spawn : ℕ → Thread → Sched → Sched
unfolding create_process
spawn finish t s =
    process_spawn t.self (create_process finish t.self t.stack_alloc t.start 0).cur_stack s

-- The loop of process_init over the threads.
unfoldable pub spawn_all : ℕ → List Thread → Sched → Sched
unfolding spawn
spawn_all finish [] s = s
spawn_all finish (t ∷ ts) s = spawn_all finish ts (spawn finish t s)

-- process_init; `idle` is the block and the stack of the idle task.
unfoldable pub process_init : ℕ → List Thread → Thread → Sched → Sched
unfolding spawn_all
process_init finish threads idle s =
    let s' = spawn_all finish threads s in
    record s' {
      idle_tsk = idle.self;
      cur_stack = λ q.
          if q == idle.self
          then (create_process finish idle.self idle.stack_alloc idle.start 0).cur_stack
          else s'.cur_stack q;
    }
