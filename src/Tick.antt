-- ===== src/Tick.antt =====
-- tick.c: the timer's registers, its interrupt, and the functions that it calls on every tick.
use lpc17xx_network.Base.{ℕ, ◌^◌, List, [], ◌∷◌, Bool, true, false, add32, bit_or}

-- The registers that tick_init writes.
pub record TimerRegisters : Type 0 where
  pub pr : ℕ
  pub mr0 : ℕ
  pub tc : ℕ
  pub pc : ℕ
  pub mcr : ℕ
  pub iser0 : ℕ
  pub tcr : ℕ

-- tick_init: the match value is `25e6 / (1 / 5e-3)`. ISER0 sets the bits that are written as ones.
unfoldable pub tick_init : TimerRegisters → TimerRegisters
tick_init regs = record {
  pr = 0;
  mr0 = 125000;
  tc = 0;
  pc = 0;
  mcr = 3;
  iser0 = bit_or regs.iser0 (2 ^ 1);
  tcr = 1;
}

-- The list tick_work, the count of interrupts, whether a context switch is pending, and whether the
-- timer's interrupt is. The count is the bits of a 32-bit int, which gcc's addition wraps, though C
-- leaves its overflow undefined. The functions work on the state `S` that they share.
pub record Ticker (S : Type 0) : Type 0 where
  pub tick_work : List (S → S)
  pub timer0_irq_wakeups : ℕ
  pub pendsv : Bool
  pub interrupt : Bool
  pub shared : S

module _ {S : Type 0} where
  -- The list_for_each of irq_timer0.
  unfoldable pub run_tick_work : List (S → S) → S → S
  run_tick_work [] s = s
  run_tick_work (tick_fn ∷ rest) s = run_tick_work rest (tick_fn s)

  unfoldable pub irq_timer0 : Ticker S → Ticker S
  unfolding run_tick_work
  irq_timer0 t = record t {
    timer0_irq_wakeups = add32 t.timer0_irq_wakeups 1;
    shared = run_tick_work t.tick_work t.shared;
    interrupt = false;
    pendsv = true;
  }

  unfoldable pub tick_add_work_fn : (S → S) → Ticker S → Ticker S
  tick_add_work_fn new_work t = record t { tick_work = new_work ∷ t.tick_work }
