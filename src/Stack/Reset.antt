-- ===== src/Stack/Reset.antt =====
-- _start of init.c as a whole: from reset to the point where interrupts are enabled.
use lpc17xx_network.Base.{
  ℕ, ◌+◌, ◌-◌, ◌<◌, ◌≤◌, ◌≡◌, refl, List, [], ◌∷◌, map, Bool, true, false, Option, none, some, ◌⊎◌,
  if◌then◌else◌,
}
use lpc17xx_network.Base.Run.{ok}
use lpc17xx_network.Irq.{cpsie}
use lpc17xx_network.Packet.{Packet}
use lpc17xx_network.Process.{Sched, pick_new_task}
use lpc17xx_network.Process.Queues.{rev_onto}
use lpc17xx_network.Process.Spawn.{Thread, process_init}
use lpc17xx_network.Process.Spawn.Laws.{selves, process_init-first}
use lpc17xx_network.Protocol.{rx_packet_loop}
use lpc17xx_network.Start.{Sections, start_memory, call_initcalls}
use lpc17xx_network.Start.Memory.{within, start_memory-some}
use lpc17xx_network.Start.Clock.{Access, main_ready, pll_locked, pll_joined, init_clocking}
use lpc17xx_network.Start.Clock.Frequency.{driven, reset_generator, cclk, init_clocking-cclk}
use lpc17xx_network.Stack.{Net, protocols}
use lpc17xx_network.Stack.Boot.{
  Initcall, Board, Boot, run_initcall, HasLink, IsUp, AllListed, rx_packet_loop-booted,
}

-- What the linker and the hardware give: the sections, the initcalls and the threads in the order
-- in which they are listed, with the blocks that get_mem returns, and the answers of the clock's
-- status registers.
pub record Image : Type 0 where
  pub sections : Sections
  pub initcalls : List Initcall
  pub board : Board
  pub threads : List Thread
  pub idle : Thread
  pub finish : ℕ
  pub ready : ℕ → ℕ
  pub lock : ℕ → ℕ
  pub joined : ℕ → ℕ

pub record System : Type 0 where
  pub memory : ℕ → ℕ
  pub clock : List Access
  pub boot : Boot
  pub sched : Sched
  pub psp : ℕ
  pub primask : Bool

-- process_init ends with PSP at NULL. mem_setup, which is the allocator's, is left out; none when
-- the fuel of a loop or a wait runs out.
unfoldable pub start : ℕ → Image → System → Option System
unfolding start_memory init_clocking call_initcalls process_init
start fuel image s = elim (start_memory fuel image.sections s.memory) [
  | none ↦ none
  | some m ↦ elim (init_clocking fuel image.ready image.lock image.joined) [
    | none ↦ none
    | some accesses ↦
        elim (call_initcalls (map (run_initcall fuel image.board) image.initcalls) s.boot) [
          | none ↦ none
          | some boot ↦ some (record {
            memory = m;
            clock = accesses;
            boot = boot;
            sched = process_init image.finish image.threads image.idle s.sched;
            psp = 0;
            primask = cpsie s.primask;
          })
        ]
  ]
]

-- With fuel above the sizes of the two sections and for the reads until the oscillator and the
-- PLL are ready, a PHY that is never busy for as many reads in a row, comes out of reset and gets
-- its link within as many, an image that lies apart from the initialised data, the initcalls of
-- the five protocols and emac_init listed in any order, and empty queues: _start reaches the
-- point where it enables interrupts, with PRIMASK clear. Memory then holds zeros in the zeroed
-- section, the image in the rest of the initialised data, and is unchanged elsewhere; the clock
-- accesses give the processor 100 MHz from 12 MHz; the Ethernet controller is set up; packets are
-- handled as by the five handlers in the fixed order; and the first task switch, from a NULL
-- stack pointer, gives the processor to the thread listed last and leaves the others in the run
-- queue.
pub start-rx_packet_loop :
    (fuel i j k first : ℕ) (front : List ℕ) (image : Image) (s : System)
    → image.sections.edata - image.sections.sdata < fuel
    → image.sections.ebss - image.sections.sbss < fuel
    → (image.sections.etext + (image.sections.edata - image.sections.sdata) ≤ image.sections.sdata)
      ⊎ (image.sections.edata ≤ image.sections.etext)
    → i < fuel
    → main_ready (image.ready i) ≡ true
    → j < fuel
    → pll_locked (image.lock j) ≡ true
    → k < fuel
    → pll_joined (image.joined k) ≡ true
    → HasLink fuel image.board.phy
    → AllListed image.initcalls
    → s.boot.protocol_head ≡ []
    → s.sched.runqueue ≡ []
    → s.sched.current_tsk ≡ none
    → rev_onto (selves image.threads) [] ≡ first ∷ front
    → (done : System) × (next : Sched) × (start fuel image s ≡ some done)
      × ((a : ℕ)
          → done.memory a ≡ (
              if within image.sections.sbss image.sections.ebss a
              then 0
              else if within image.sections.sdata image.sections.edata a
              then s.memory (image.sections.etext + (a - image.sections.sdata))
              else s.memory a))
      × (cclk 12 (driven reset_generator done.clock) ≡ 100)
      × IsUp image.board done.boot
      × ((n : ℕ) (pkt : Packet) (net : Net)
          → rx_packet_loop n done.boot.protocol_head pkt net ≡ rx_packet_loop n protocols pkt net)
      × (pick_new_task done.psp done.sched ≡ ok next)
      × (next.current_tsk ≡ some first)
      × (next.runqueue ≡ front)
      × (done.primask ≡ false)
unfolding start
start-rx_packet_loop fuel i j k first front image s data_fuel bss_fuel apart hi ei hj ej hk ek
      has_link all unregistered empty no_task order =
    let (m, laid, bytes) =
      start_memory-some fuel image.sections s.memory data_fuel bss_fuel apart in
    let (accesses, clocked, mhz, used_well) =
      init_clocking-cclk fuel i j k image.ready image.lock image.joined hi ei hj ej hk ek in
    let (boot, booted_up, up, same) =
      rx_packet_loop-booted fuel image.board image.initcalls s.boot has_link all unregistered in
    let (next, picked, current, queued) =
      process_init-first image.finish image.threads image.idle s.sched first front empty no_task
        order in
    (
      record {
        memory = m;
        clock = accesses;
        boot = boot;
        sched = process_init image.finish image.threads image.idle s.sched;
        psp = 0;
        primask = false;
      },
      next,
      rw (start, laid, clocked, booted_up) refl,
      bytes,
      mhz,
      up,
      same,
      picked,
      current,
      queued,
      refl,
    )
