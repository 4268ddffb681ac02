-- ===== src/Stack/Boot.antt =====
-- The initcalls of the stack, in the order in which the linker happens to list them.
use lpc17xx_network.Base.{
  ℕ, zero, suc, ◌≡◌, ◌<◌, ◌≤◌, ◌%◌, ◌^◌, none, ◌⊎◌, refl, sym, ◌∙◌, ap, arith, List, [], ◌∷◌, map,
  Bool, true, false, ◌||◌, Option, some, Bool-cases, inl, inr, if◌then◌else◌,
}
use lpc17xx_network.Base.Run.{Run, ok, fault, halted}
use lpc17xx_network.Packet.{
  ProtocolType, ethernet, ipv4, udp, tcp, arp, drop, Packet, packet_destroy,
}
use lpc17xx_network.Protocol.{
  Protocols, same_type, protocol_register, resolve_pkt_protocol, rx_layer, rx_packet_loop,
}
use lpc17xx_network.Start.{call_initcalls}
use lpc17xx_network.Tick.{Ticker, TimerRegisters, tick_add_work_fn}
use lpc17xx_network.Tick
use lpc17xx_network.Emac.Setup
use lpc17xx_network.Emac.Setup.{Phy, Mii, Arrays, EmacRegisters, phy_reg, out_of_reset, link_ready}
use lpc17xx_network.Emac.Setup.Link.{Answers, IsSetUp, emac_init-IsSetUp}
use lpc17xx_network.Stack.{
  Net, ethernet_layer, ipv4_layer, arp_layer, udp_layer, tcp_layer, protocols, arp_tick_work,
  tcp_tick_work,
}

-- The functions that `initcall` lists.
pub data Initcall : Type 0 where
  arp_init emac_init ethernet_init ipv4_init tcp_init tick_init udp_init : Initcall

-- What they work on: protocol_head, the timer's list of functions, the timer, the registers of the
-- Ethernet controller and its way to the PHY.
pub record Boot : Type 0 where
  pub protocol_head : Protocols Net
  pub ticker : Ticker Net
  pub timer : TimerRegisters
  pub emac : EmacRegisters
  pub mii : Mii

-- The PHY, the addresses of the descriptor arrays, and the blocks that get_mem returns to
-- emac_init.
pub record Board : Type 0 where
  pub phy : Phy
  pub arrays : Arrays
  pub blocks : ℕ → ℕ

-- arp_init, tcp_init, udp_init, ipv4_init and ethernet_init.
unfoldable pub call_arp_init : Boot → Boot
unfolding protocol_register tick_add_work_fn
call_arp_init b = record b {
  ticker = tick_add_work_fn arp_tick_work b.ticker;
  protocol_head = protocol_register arp arp_layer b.protocol_head;
}

unfoldable pub call_tcp_init : Boot → Boot
unfolding protocol_register tick_add_work_fn
call_tcp_init b = record b {
  ticker = tick_add_work_fn tcp_tick_work b.ticker;
  protocol_head = protocol_register tcp tcp_layer b.protocol_head;
}

unfoldable pub call_udp_init : Boot → Boot
unfolding protocol_register
call_udp_init b = record b { protocol_head = protocol_register udp udp_layer b.protocol_head }

unfoldable pub call_ipv4_init : Boot → Boot
unfolding protocol_register
call_ipv4_init b = record b { protocol_head = protocol_register ipv4 ipv4_layer b.protocol_head }

unfoldable pub call_ethernet_init : Boot → Boot
unfolding protocol_register
call_ethernet_init b = record b {
  protocol_head = protocol_register ethernet ethernet_layer b.protocol_head;
}

-- One entry of the table of initcalls; none where a wait of emac_init does not end within the fuel.
unfoldable pub run_initcall : ℕ → Board → Initcall → Boot → Option Boot
unfolding call_arp_init call_tcp_init call_udp_init call_ipv4_init call_ethernet_init Tick.tick_init
    Setup.emac_init
run_initcall fuel board arp_init b = some (call_arp_init b)
run_initcall fuel board emac_init b =
    elim (Setup.emac_init fuel board.phy board.arrays board.blocks b.mii b.emac) [
      | none ↦ none
      | some (r, m) ↦ some (record b { emac = r; mii = m })
    ]
run_initcall fuel board ethernet_init b = some (call_ethernet_init b)
run_initcall fuel board ipv4_init b = some (call_ipv4_init b)
run_initcall fuel board tcp_init b = some (call_tcp_init b)
run_initcall fuel board tick_init b = some (record b { timer = Tick.tick_init b.timer })
run_initcall fuel board udp_init b = some (call_udp_init b)

-- The initcalls in an order, one after another.
abbrev pub booted : ℕ → Board → List Initcall → Boot → Option Boot
booted fuel board calls b = call_initcalls (map (run_initcall fuel board) calls) b

-- The PHY is not busy for `fuel` reads in a row, and from the read `later` on it is out of reset
-- and has its link.
pub record HasLink (fuel : ℕ) (phy : Phy) : Type 0 where
  pub answers : Answers fuel phy
  pub later : ℕ
  pub enough : later < fuel
  pub resets : (t : ℕ) → later ≤ t → out_of_reset (phy.mrdd t (phy_reg 0) % 2 ^ 16) ≡ true
  pub links : (t : ℕ) → later ≤ t → link_ready (phy.mrdd t (phy_reg 0x10) % 2 ^ 16) ≡ true

-- The controller is set up for some parameters of the link.
abbrev pub IsUp : Board → Boot → Type 0
IsUp board b = (link_params : ℕ) × IsSetUp link_params board.blocks b.emac

-- The call that registers the handler of a type, and that handler.
abbrev registers : ProtocolType → Initcall → Bool
registers arp arp_init = true
registers ethernet ethernet_init = true
registers ipv4 ipv4_init = true
registers tcp tcp_init = true
registers udp udp_init = true
registers _ _ = false

abbrev any_registers : ProtocolType → List Initcall → Bool
any_registers t [] = false
any_registers t (c ∷ cs) = registers t c || any_registers t cs

abbrev is_emac_init : Initcall → Bool
is_emac_init emac_init = true
is_emac_init _ = false

abbrev any_emac_init : List Initcall → Bool
any_emac_init [] = false
any_emac_init (c ∷ cs) = is_emac_init c || any_emac_init cs

-- Every call is in the list.
abbrev pub AllListed : List Initcall → Type 0
AllListed calls =
    (any_registers arp calls ≡ true)
    × (any_registers ethernet calls ≡ true)
    × (any_registers ipv4 calls ≡ true)
    × (any_registers tcp calls ≡ true)
    × (any_registers udp calls ≡ true)
    × (any_emac_init calls ≡ true)

-- The table of handlers after a call.
abbrev table : Initcall → Protocols Net → Protocols Net
table arp_init ps = protocol_register arp arp_layer ps
table ethernet_init ps = protocol_register ethernet ethernet_layer ps
table ipv4_init ps = protocol_register ipv4 ipv4_layer ps
table tcp_init ps = protocol_register tcp tcp_layer ps
table udp_init ps = protocol_register udp udp_layer ps
table _ ps = ps

resolve_one :
    (t : ProtocolType) (c : Initcall) (ps : Protocols Net)
    → resolve_pkt_protocol t (table c ps)
      ≡ (if registers t c then resolve_pkt_protocol t protocols else resolve_pkt_protocol t ps)
unfolding protocol_register resolve_pkt_protocol protocols
resolve_one arp arp_init ps = refl
resolve_one arp _ ps = refl
resolve_one ethernet ethernet_init ps = refl
resolve_one ethernet _ ps = refl
resolve_one ipv4 ipv4_init ps = refl
resolve_one ipv4 _ ps = refl
resolve_one tcp tcp_init ps = refl
resolve_one tcp _ ps = refl
resolve_one udp udp_init ps = refl
resolve_one udp _ ps = refl
resolve_one drop arp_init ps = refl
resolve_one drop _ ps = refl

still : {A : Type 0} → (false ≡ true) ⊎ A → A
still (inl e) = absurd (cc)
still (inr up) = up

earlier : {A : Type 0} (a b : Bool) → b ≡ false → ((a || b) ≡ true) ⊎ A → (a ≡ true) ⊎ A
earlier a b e (inl h) = inl (ground (arith, e, h))
earlier a b e (inr up) = inr up

module _ (fuel : ℕ) (board : Board) (has_link : HasLink fuel board.phy) where
  run_initcall-some :
      (c : Initcall) (b : Boot)
      → (b' : Boot) × (run_initcall fuel board c b ≡ some b')
        × (b'.protocol_head ≡ table c b.protocol_head)
        × ((is_emac_init c ≡ true) ⊎ IsUp board b → IsUp board b')
  unfolding run_initcall call_arp_init call_tcp_init call_udp_init call_ipv4_init call_ethernet_init
  run_initcall-some emac_init b =
      let (m, r, run, up, kept, log) =
        emac_init-IsSetUp fuel has_link.later board.phy board.arrays board.blocks b.mii b.emac
          has_link.answers has_link.enough has_link.resets has_link.links in
      (
        record b { emac = r; mii = m },
        rw (run_initcall, run) refl,
        refl,
        λ h. (board.phy.mrdd m.now (phy_reg 0x10) % 2 ^ 16, up),
      )
  run_initcall-some arp_init b = (_, refl, refl, λ h. still h)
  run_initcall-some ethernet_init b = (_, refl, refl, λ h. still h)
  run_initcall-some ipv4_init b = (_, refl, refl, λ h. still h)
  run_initcall-some tcp_init b = (_, refl, refl, λ h. still h)
  run_initcall-some tick_init b = (_, refl, refl, λ h. still h)
  run_initcall-some udp_init b = (_, refl, refl, λ h. still h)

  booted-some :
      (calls : List Initcall) (b : Boot)
      → (b' : Boot) × (booted fuel board calls b ≡ some b')
        × ((t : ProtocolType)
            → resolve_pkt_protocol t b'.protocol_head ≡ (
                if any_registers t calls
                then resolve_pkt_protocol t protocols
                else resolve_pkt_protocol t b.protocol_head))
        × ((any_emac_init calls ≡ true) ⊎ IsUp board b → IsUp board b')
  unfolding call_initcalls
  booted-some [] b = (b, refl, λ t. refl, λ h. still h)
  booted-some (c ∷ cs) b =
      let (b1, run, head, up) = run_initcall-some c b in
      let (b2, runs, found, ups) = booted-some cs b1 in
      (
        b2,
        rw (call_initcalls, run) runs,
        λ t.
            let one : resolve_pkt_protocol t b1.protocol_head ≡ (
                if registers t c
                then resolve_pkt_protocol t protocols
                else resolve_pkt_protocol t b.protocol_head) =
              ap (resolve_pkt_protocol t) head ∙ resolve_one t c b.protocol_head in
            found t ∙ elim (Bool-cases (any_registers t cs)) [
              | inl later ↦ rw later (ground arith)
              | inr no_later ↦ rw no_later (one ∙ ground arith)
            ],
        λ h. elim (Bool-cases (any_emac_init cs)) [
          | inl later ↦ ups (inl later)
          | inr no_later ↦ ups (inr (up (earlier (is_emac_init c) (any_emac_init cs) no_later h)))
        ],
      )

never_drop : (calls : List Initcall) → any_registers drop calls ≡ false
never_drop [] = refl
never_drop (arp_init ∷ cs) = never_drop cs
never_drop (_ ∷ cs) = never_drop cs

-- Whatever the order, each type has the handler that it has in `protocols`.
resolve_listed :
    (t : ProtocolType) (calls : List Initcall) (ps qs : Protocols Net)
    → AllListed calls
    → ps ≡ []
    → resolve_pkt_protocol t qs ≡ (
        if any_registers t calls
        then resolve_pkt_protocol t protocols
        else resolve_pkt_protocol t ps)
    → resolve_pkt_protocol t qs ≡ resolve_pkt_protocol t protocols
resolve_listed t calls ps qs all empty found = found ∙ go t
  where
    go :
        (t : ProtocolType)
        → (if any_registers t calls
            then resolve_pkt_protocol t protocols
            else resolve_pkt_protocol t ps)
          ≡ resolve_pkt_protocol t protocols
    go arp = rw all.0 refl
    go ethernet = rw all.1 refl
    go ipv4 = rw all.2 refl
    go tcp = rw all.3 refl
    go udp = rw all.4 refl
    go drop =
        rw (never_drop calls, empty)
          (unfold resolve_pkt_protocol protocols protocol_register in refl)

-- What the loop does with the result of a round.
abbrev goes_on : ℕ → Protocols Net → Run (Packet × Net) → Option (Run (List ℕ × Net))
goes_on n ps (ok (q, t)) =
    if same_type q.handler drop then some (ok (packet_destroy q, t)) else rx_packet_loop n ps q t
goes_on n ps fault = some fault
goes_on n ps halted = some halted

rx_packet_loop-suc :
    (n : ℕ) (ps : Protocols Net) (pkt : Packet) (s : Net)
    → rx_packet_loop (suc n) ps pkt s ≡ goes_on n ps (rx_layer ps pkt s)
unfolding rx_packet_loop
rx_packet_loop-suc n ps pkt s = go (rx_layer ps pkt s)
  where
    go :
        (r : Run (Packet × Net))
        → (elim r as (λ x. Option (Run (List ℕ × Net))) [
          | fault ↦ some fault
          | halted ↦ some halted
          | ok (q, t) ↦
              if same_type q.handler drop
              then some (ok (packet_destroy q, t))
              else rx_packet_loop n ps q t
        ])
          ≡ goes_on n ps r
    go (ok (q, t)) = refl
    go fault = refl
    go halted = refl

rx_layer-same :
    (ps qs : Protocols Net) (pkt : Packet) (s : Net)
    → resolve_pkt_protocol pkt.handler ps ≡ resolve_pkt_protocol pkt.handler qs
    → rx_layer ps pkt s ≡ rx_layer qs pkt s
unfolding rx_layer
rx_layer-same ps qs pkt s same = rw (rx_layer, same) refl

-- The loop of rx_task looks at the table only through the search.
loop_same :
    (n : ℕ) (ps qs : Protocols Net) (pkt : Packet) (s : Net)
    → ((t : ProtocolType) → resolve_pkt_protocol t ps ≡ resolve_pkt_protocol t qs)
    → rx_packet_loop n ps pkt s ≡ rx_packet_loop n qs pkt s
loop_same zero ps qs pkt s same = unfold rx_packet_loop in refl
loop_same (suc n) ps qs pkt s same =
    rx_packet_loop-suc n ps pkt s
    ∙ ap (goes_on n ps) (rx_layer-same ps qs pkt s (same pkt.handler))
    ∙ after (λ q t. loop_same n ps qs q t same) (rx_layer qs pkt s)
    ∙ sym (rx_packet_loop-suc n qs pkt s)
  where
    after :
        ((q : Packet) (t : Net) → rx_packet_loop n ps q t ≡ rx_packet_loop n qs q t)
        → (r : Run (Packet × Net)) → goes_on n ps r ≡ goes_on n qs r
    after h (ok (q, t)) = rw (h q t) refl
    after h fault = refl
    after h halted = refl

-- Whatever the order in which the initcalls are listed, when those of the five protocols and
-- emac_init are among them, no protocol is registered before, and the PHY gets its link: they all
-- end, the controller is set up, and the loop of rx_task with the handlers that they register does
-- the same on every packet, in every state and for any number of rounds as with the five handlers
-- in the fixed order.
pub rx_packet_loop-booted :
    (fuel : ℕ) (board : Board) (calls : List Initcall) (b : Boot)
    → HasLink fuel board.phy
    → AllListed calls
    → b.protocol_head ≡ []
    → (b' : Boot) × (booted fuel board calls b ≡ some b')
      × IsUp board b'
      × ((n : ℕ) (pkt : Packet) (s : Net)
          → rx_packet_loop n b'.protocol_head pkt s ≡ rx_packet_loop n protocols pkt s)
rx_packet_loop-booted fuel board calls b has_link all empty =
    let (b', run, found, up) = booted-some fuel board has_link calls b in
    (
      b',
      run,
      up (inl all.5),
      λ n pkt s.
          loop_same n b'.protocol_head protocols pkt s
            (λ t. resolve_listed t calls b.protocol_head b'.protocol_head all empty (found t)),
    )
