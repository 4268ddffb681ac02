-- ===== src/Tests/Board.antt =====
-- The start of the board and its Ethernet controller at concrete inputs.
use lpc17xx_network.Base.{
  ℕ, ◌+◌, ◌*◌, ◌≤◌, ◌-◌, ◌%◌, ◌^◌, ◌<◌, ◌≡◌, ◌≢◌, refl, arith, List, [], ◌∷◌, ◌++◌, true, false,
  some, none, inl, replicate, ◌==◌, if◌then◌else◌,
}
use lpc17xx_network.Base.Run.{ok, ◌>>=◌}
use lpc17xx_network.Packet.{Packet}
use lpc17xx_network.Process.{Sched, running, pick_new_task}
use lpc17xx_network.Process.Spawn.{Thread}
use lpc17xx_network.Protocol.{rx_packet_loop}
use lpc17xx_network.Stack.{Net, protocols}
use lpc17xx_network.Stack.Boot.{
  Initcall, arp_init, ethernet_init, ipv4_init, tcp_init, tick_init, udp_init, HasLink, IsUp,
}
use lpc17xx_network.Stack.Reset.{Image, System, start, start-rx_packet_loop}
use lpc17xx_network.Start.{Sections}
use lpc17xx_network.Start.Memory.{within}
use lpc17xx_network.Start.Clock.{Access, main_ready, pll_locked, pll_joined, init_clocking}
use lpc17xx_network.Start.Clock.Frequency.{driven, reset_generator, cclk, init_clocking-cclk}
use lpc17xx_network.Emac.{irq_enet, emac_xmit_frame}
use lpc17xx_network.Emac.Ring.{
  RxSlot, enet_loop, fragments_from, Fills, drained_at, enet_loop-irq_enet,
}
use lpc17xx_network.Emac.Setup.{
  Phy, Mii, out_of_reset, link_ready, Arrays, EmacRegisters, emac_init,
}
use lpc17xx_network.Emac.Setup.Link.{IsSetUp, emac_init-IsSetUp}
use lpc17xx_network.Emac.Transmit.{bytes_sent, ends_frame, emac_xmit_frame-frame}

-- Two bytes of initial data at 100, copied to 200, with three bytes to clear behind them.
abbrev sections : Sections
sections = record { etext = 100; sdata = 200; edata = 202; sbss = 202; ebss = 205 }

-- The oscillator is ready at the third read, and the PLL locked at the second.
abbrev ready_at : ℕ → ℕ
ready_at k = if k == 2 then 2 ^ 6 else 0

abbrev lock_at : ℕ → ℕ
lock_at k = if k == 1 then 2 ^ 26 else 0

init_clocking-cclk_example :
    (done : List Access) × (init_clocking 4 ready_at lock_at (λ (k : ℕ). 2 ^ 24 + 2 ^ 25)
      ≡ some done)
    × (cclk 12 (driven reset_generator done) ≡ 100)
    × ((driven reset_generator done).misused ≡ false)
init_clocking-cclk_example =
    init_clocking-cclk 4 2 1 0 ready_at lock_at (λ (k : ℕ). 2 ^ 24 + 2 ^ 25) (omega arith)
      (unfold main_ready in refl) (omega arith) (unfold pll_locked in refl) (omega arith)
      (unfold pll_joined in refl)

-- Two fragments of two bytes in the slots 11 and 0; the second one is the last of its frame, and
-- comes in after the first test.
abbrev slots : ℕ → ℕ → RxSlot
slots now k =
    if k == 0
    then record { packet = 3 ∷ 4 ∷ 9 ∷ []; status_info = 2 ^ 30 + 1; block = replicate 4 0 }
    else record { packet = 1 ∷ 2 ∷ 9 ∷ []; status_info = 1; block = [] }

abbrev came : ℕ → ℕ
came t = if t == 0 then 1 else 2

came-Fills : Fills 11 2 (λ t. (11 + came t) % 12) came
came-Fills = record {
  index = λ t. refl;
  onwards = λ t. ground arith;
  room = λ t. ground arith;
  bounded = λ t. ground arith;
}

enet_loop-irq_enet_example :
    (n : ℕ) × (n ≤ 2)
    × (came n ≡ n)
    × ((t : ℕ) → t < n → t < came t)
    × (enet_loop 3 slots (λ t. (11 + came t) % 12) 0 11 none
        ≡ some (
            irq_enet none (fragments_from slots n 0 11) >>= λ r.
            ok (drained_at ((11 + came n) % 12) r)))
enet_loop-irq_enet_example =
    enet_loop-irq_enet slots 11 2 (λ t. (11 + came t) % 12) came none (omega arith) came-Fills

-- A PHY that is busy at every second read of MIND, with a link of 100 Mbps at full duplex.
abbrev phy : Phy
phy = record { mind = λ (t : ℕ). t % 2; mrdd = λ (t reg : ℕ). 5 }

abbrev arrays : Arrays
arrays = record { rx_desc_at = 1000; tx_desc_at = 2000; tx_status_at = 3000; rx_status_at = 4000 }

abbrev blocks : ℕ → ℕ
blocks i = 5000 + 200 * i

abbrev mii : Mii
mii = record { mcmd = 0; madr = 0; mwtd = 0; now = 0; written = [] }

abbrev registers : EmacRegisters
registers = record {
  pconp = 0;
  pinsel2 = 0;
  pinsel3 = 0;
  mac1 = 0x8000;
  mac2 = 0;
  ipgt = 0;
  ipgr = 0;
  command = 2 ^ 10;
  supp = 0;
  sa0 = 0;
  sa1 = 0;
  sa2 = 0;
  rx_descriptor = 0;
  tx_descriptor = 0;
  tx_status = 0;
  rx_status = 0;
  rx_descriptor_number = 0;
  tx_descriptor_number = 0;
  rx_consume_index = 0;
  tx_produce_index = 0;
  int_enable = 0;
  iser0 = 0;
  rx_desc = λ (i : ℕ). record { packet = 0; control = 0 };
  ether_addr = [];
}

emac_init-IsSetUp_example :
    (m' : Mii) × (r' : EmacRegisters) × (emac_init 3 phy arrays blocks mii registers
      ≡ some (r', m'))
    × IsSetUp 5 blocks r'
    × ((i : ℕ) → 12 ≤ i → r'.rx_desc i ≡ record { packet = 0; control = 0 })
    × (m'.written ≡ (0, 2 ^ 15) ∷ (0, 2 ^ 12) ∷ [])
emac_init-IsSetUp_example =
    emac_init-IsSetUp 3 0 phy arrays blocks mii registers (λ t. (t % 2, omega arith, omega arith))
      (omega arith) (λ t h. unfold out_of_reset in refl) (λ t h. unfold link_ready in refl)

emac_xmit_frame-frame_example :
    let (first, second, next) = emac_xmit_frame 10 (replicate 14 7) (1 ∷ 2 ∷ 3 ∷ []) 2 in
    (bytes_sent first ++ bytes_sent second ≡ replicate 14 7 ++ (1 ∷ 2 ∷ []))
    × (ends_frame first ≡ false)
    × (ends_frame second ≡ true)
    × (first.index ≡ 10)
    × (second.index ≡ 11)
    × (first.index ≢ second.index)
    × (next ≡ 0)
    × (next < 12)
emac_xmit_frame-frame_example =
    emac_xmit_frame-frame 10 (replicate 14 7) (1 ∷ 2 ∷ 3 ∷ []) 2 (omega arith) refl (omega arith)
      (omega arith)

abbrev thread : ℕ → Thread
thread self = record { start = 4096; self = self; stack_alloc = 8192 }

phy-HasLink : HasLink 4 phy
phy-HasLink = record {
  answers = λ t. (t % 2, omega arith, omega arith);
  later = 0;
  enough = omega arith;
  resets = λ t h. unfold out_of_reset in refl;
  links = λ t h. unfold link_ready in refl;
}

abbrev image : Image
image = record {
  sections = sections;
  initcalls =
      tcp_init ∷ udp_init ∷ tick_init ∷ ipv4_init ∷ arp_init ∷ Initcall.emac_init ∷ ethernet_init
      ∷ [];
  board = record { phy = phy; arrays = arrays; blocks = blocks };
  threads = thread 3 ∷ thread 4 ∷ [];
  idle = thread 9;
  finish = 7;
  ready = ready_at;
  lock = lock_at;
  joined = λ (k : ℕ). 2 ^ 24 + 2 ^ 25;
}

abbrev at_reset : System
at_reset = record {
  memory = λ (a : ℕ). a;
  clock = [];
  boot = record {
    protocol_head = [];
    ticker = record {
      tick_work = [];
      timer0_irq_wakeups = 0;
      pendsv = false;
      interrupt = false;
      shared = record {
        ether_addr = [];
        no_dropped_packets = 0;
        arp_state = record { table = []; pending = []; settled = [] };
        listeners = [];
        tcbs = [];
        effects = [];
      };
    };
    timer = record { pr = 0; mr0 = 0; tc = 0; pc = 0; mcr = 0; iser0 = 0; tcr = 0 };
    emac = registers;
    mii = mii;
  };
  sched = record {
    runqueue = [];
    waitqueue = [];
    deadqueue = [];
    current_tsk = none;
    idle_tsk = 0;
    state = λ (q : ℕ). running;
    cur_stack = λ (q : ℕ). 0;
  };
  psp = 4096;
  primask = true;
}

start-rx_packet_loop_example :
    (done : System) × (next : Sched) × (start 4 image at_reset ≡ some done)
    × ((a : ℕ)
        → done.memory a
          ≡ (if within 202 205 a then 0 else if within 200 202 a then 100 + (a - 200) else a))
    × (cclk 12 (driven reset_generator done.clock) ≡ 100)
    × IsUp image.board done.boot
    × ((n : ℕ) (pkt : Packet) (net : Net)
        → rx_packet_loop n done.boot.protocol_head pkt net ≡ rx_packet_loop n protocols pkt net)
    × (pick_new_task done.psp done.sched ≡ ok next)
    × (next.current_tsk ≡ some 4)
    × (next.runqueue ≡ 3 ∷ [])
    × (done.primask ≡ false)
start-rx_packet_loop_example =
    start-rx_packet_loop 4 2 1 0 4 (3 ∷ []) image at_reset (omega arith) (omega arith)
      (inl (omega arith)) (omega arith) (unfold main_ready in refl) (omega arith)
      (unfold pll_locked in refl) (omega arith) (unfold pll_joined in refl) phy-HasLink
      (refl, refl, refl, refl, refl, refl) refl refl refl refl
