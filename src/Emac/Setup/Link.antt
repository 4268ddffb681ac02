-- ===== src/Emac/Setup/Link.antt =====
-- What emac_init leaves, with a PHY that answers.
use lpc17xx_network.Base.{
  ℕ, zero, suc, ◌+◌, ◌/◌, ◌%◌, ◌^◌, ◌-◌, ◌<◌, ◌≤◌, ◌≡◌, ◌≢◌, refl, sym, ◌∙◌, ap, arith, [], ◌∷◌,
  Bool, true, false, some, ◌==◌, inl, inr, Bool-cases, ◌++◌, append_assoc, ltb, bit_or, ==_iff,
  if◌then◌else◌,
}
use native.Mathlib.Decide.{dec_le}
use lpc17xx_network.Base.Bits.{bit_at, bit_at_set, bit_at_kept, bit_at_cleared}
use lpc17xx_network.Emac.{desc_len}
use lpc17xx_network.Emac.Setup.{
  Phy, Mii, phy_reg, wait_idle, phy_write, phy_read, read_until, out_of_reset, link_ready, init_phy,
  RxDescriptor, rx_frag_buf_sz, EmacRegisters, init_mac, set_link, rx_descriptors, Arrays,
  start_rings, emac_init,
}

-- The PHY is not busy for `fuel` reads of MIND in a row.
abbrev pub Answers : ℕ → Phy → Type 0
Answers fuel phy = (t : ℕ) → (k : ℕ) × (k < fuel) × (phy.mind (t + k) % 2 ≡ 0)

wait_idle-some :
    (n k now : ℕ) (phy : Phy)
    → k < n
    → phy.mind (now + k) % 2 ≡ 0
    → (t : ℕ) × (wait_idle n phy now ≡ some t) × (now < t)
unfolding wait_idle
wait_idle-some zero k now phy h e = absurd (omega arith)
wait_idle-some (suc n) k now phy h e = elim (Bool-cases (phy.mind now % 2 == 1)) [
  | inr idle ↦ (suc now, rw (wait_idle, idle) refl, omega arith)
  | inl busy ↦
      let some_left : k ≡ suc (k - 1) = ground (arith, e, busy) in
      let (t, run, more) =
        wait_idle-some n (k - 1) (suc now) phy (omega (arith, some_left))
          (ap (λ (x : ℕ). phy.mind x % 2) (omega (arith, some_left)) ∙ e) in
      (t, rw (wait_idle, busy) run, omega (arith, more))
]

module _ (fuel : ℕ) (phy : Phy) (answers : Answers fuel phy) where
  phy_write-some :
      (reg writeval : ℕ) (m : Mii)
      → (m' : Mii) × (phy_write fuel phy reg writeval m ≡ some m')
        × (m.now < m'.now)
        × (m'.written ≡ m.written ++ (reg, writeval) ∷ [])
  unfolding phy_write
  phy_write-some reg writeval m =
      let (k, below, idle) = answers m.now in
      let (t, run, more) = wait_idle-some fuel k m.now phy below idle in
      (
        record {
          mcmd = 0;
          madr = phy_reg reg;
          mwtd = writeval;
          now = t;
          written = m.written ++ (reg, writeval) ∷ [];
        },
        rw (phy_write, run) refl,
        more,
        refl,
      )

  phy_read-some :
      (reg : ℕ) (m : Mii)
      → (m' : Mii) × (phy_read fuel phy reg m ≡ some (phy.mrdd m'.now (phy_reg reg) % 2 ^ 16, m'))
        × (m.now < m'.now)
        × (m'.written ≡ m.written)
  unfolding phy_read
  phy_read-some reg m =
      let (k, below, idle) = answers m.now in
      let (t, run, more) = wait_idle-some fuel k m.now phy below idle in
      (record m { mcmd = 0; madr = phy_reg reg; now = t }, rw (phy_read, run) refl, more, refl)

  true_ne : true ≢ false
  true_ne e = absurd (cc e)

  -- A loop on an answer ends when the answer passes from some time on.
  read_until-some :
      (test : ℕ → Bool) (reg later n : ℕ) (m : Mii)
      → ((t : ℕ) → later ≤ t → test (phy.mrdd t (phy_reg reg) % 2 ^ 16) ≡ true)
      → 0 < n
      → later < m.now + n
      → (m' : Mii) × (read_until test n fuel phy reg m ≡ some m')
        × (m.now ≤ m'.now)
        × (m'.written ≡ m.written)
  unfolding read_until
  read_until-some test reg later zero m passes some_fuel h = absurd (omega arith)
  read_until-some test reg later (suc n) m passes some_fuel h =
      let (m', run, more, kept) = phy_read-some reg m in
      let answer = phy.mrdd m'.now (phy_reg reg) % 2 ^ 16 in
      elim (Bool-cases (test answer)) [
        | inl passed ↦ (m', rw (read_until, run, passed) refl, omega (arith, more), kept)
        | inr not_passed ↦ elim (dec_le later m'.now) [
          | yes there ↦ absurd (true_ne (sym (passes m'.now there) ∙ not_passed))
          | no early ↦
              let (m2, runs, on, kept2) =
                read_until-some test reg later n m' passes (omega (arith, more))
                  (omega (arith, more)) in
              (m2, rw (read_until, run, not_passed) runs, omega (arith, more, on), kept2 ∙ kept)
        ]
      ]

  -- From the time `later` on, the PHY is out of reset and its link is ready.
  module _ (later : ℕ) (enough : later < fuel)
      (resets : (t : ℕ) → later ≤ t → out_of_reset (phy.mrdd t (phy_reg 0) % 2 ^ 16) ≡ true)
      (links : (t : ℕ) → later ≤ t → link_ready (phy.mrdd t (phy_reg 0x10) % 2 ^ 16) ≡ true) where
    init_phy-some :
        (m : Mii)
        → (m' : Mii) × (init_phy fuel phy m ≡ some (phy.mrdd m'.now (phy_reg 0x10) % 2 ^ 16, m'))
          × (m'.written ≡ m.written ++ (0, 2 ^ 15) ∷ (0, 2 ^ 12) ∷ [])
    unfolding init_phy
    init_phy-some m =
        let (m1, run1, on1, log1) = phy_write-some 0 (2 ^ 15) m in
        let (m2, run2, on2, log2) =
          read_until-some out_of_reset 0 later fuel m1 resets (omega arith) (omega arith) in
        let (m3, run3, on3, log3) = phy_write-some 0 (2 ^ 12) m2 in
        let (m4, run4, on4, log4) =
          read_until-some link_ready 0x10 later fuel m3 links (omega arith) (omega arith) in
        let (m5, run5, on5, log5) = phy_read-some 0x10 m4 in
        (
          m5,
          rw (init_phy, run1, run2, run3, run4, run5) refl,
          log5
              ∙ log4
              ∙ log3
              ∙ ap (λ l. l ++ (0, 2 ^ 12) ∷ []) (log2 ∙ log1)
              ∙ append_assoc m.written ((0, 2 ^ 15) ∷ []) ((0, 2 ^ 12) ∷ []),
        )

-- The rings and the mode that the controller is left with, for the link's parameters.
pub record IsSetUp (link_params : ℕ) (blocks : ℕ → ℕ) (r : EmacRegisters) : Type 0 where
  pub fast : r.supp ≡ (if bit_at 1 link_params == 0 then 2 ^ 8 else 0)
  pub duplex : bit_at 10 r.command ≡ bit_at 2 link_params
  pub receives : bit_at 0 r.command ≡ 1
  pub transmits : bit_at 1 r.command ≡ 1
  pub rmii : bit_at 9 r.command ≡ 1
  pub receive_enable : bit_at 0 r.mac1 ≡ 1
  pub interrupts : bit_at 3 r.int_enable ≡ 1
  pub empty_rx : r.rx_consume_index ≡ 0
  pub empty_tx : r.tx_produce_index ≡ 0
  pub last_rx : r.rx_descriptor_number + 1 ≡ desc_len
  pub last_tx : r.tx_descriptor_number + 1 ≡ desc_len
  pub unmasked : bit_at 28 r.iser0 ≡ 1
  pub fragments : (i : ℕ) → i < desc_len → (r.rx_desc i).packet ≡ blocks i
  pub sized : (i : ℕ) → i < desc_len → (r.rx_desc i).control % 2 ^ 11 + 1 ≡ rx_frag_buf_sz

-- The descriptor that a round sets.
abbrev set_in : (ℕ → ℕ) → ℕ → RxDescriptor
set_in blocks i = record { packet = blocks i; control = bit_or (rx_frag_buf_sz - 1) (2 ^ 31) }

abbrev in_loop : ℕ → ℕ → Bool
in_loop i q = if ltb q i then false else ltb q desc_len

-- The loop sets the descriptors from `i` on, and no others.
rx_descriptors-set_in :
    (n i : ℕ) (blocks : ℕ → ℕ) (rx_desc : ℕ → RxDescriptor) (q : ℕ)
    → i + n ≡ desc_len + 1
    → rx_descriptors n i blocks rx_desc q ≡ (if in_loop i q then set_in blocks q else rx_desc q)
unfolding rx_descriptors
rx_descriptors-set_in zero i blocks rx_desc q e =
    let out : in_loop i q ≡ false = ground (arith, e) in rw out refl
rx_descriptors-set_in (suc n) i blocks rx_desc q e =
    let upd = λ (p : ℕ). if p == i then set_in blocks i else rx_desc p in
    let rest = rx_descriptors-set_in n (suc i) blocks upd q (omega (arith, e)) in
    elim (Bool-cases (ltb i desc_len)) [
      | inr past ↦
          let out : in_loop i q ≡ false = ground (arith, past) in
          rw (rx_descriptors, past, out) refl
      | inl inside ↦ elim (Bool-cases (q == i)) [
        | inl same ↦
            let at : q ≡ i = (==_iff q i).0 same in
            let later : in_loop (suc i) q ≡ false = ground (arith, same) in
            let now : in_loop i q ≡ true = ground (arith, same, inside) in
            rw (rx_descriptors, inside, now) (rest ∙ rw (later, same) (ap (set_in blocks) (sym at)))
        | inr other ↦
            let agree : in_loop (suc i) q ≡ in_loop i q = ground (arith, other) in
            rw (rx_descriptors, inside) (rest ∙ rw (agree, other) refl)
      ]
    ]

duplex_mode :
    (link_params : ℕ) (r : EmacRegisters)
    → bit_at 10 (set_link link_params r).command ≡ bit_at 2 link_params
unfolding set_link
duplex_mode link_params r = elim (Bool-cases (link_params / 4 % 2 == 1)) [
  | inl full ↦
      let high : link_params / 2 / 2 % 2 ≡ 1 = ground (arith, full) in
      rw (full, high) (bit_at_set 10 r.command (2 ^ 10) refl)
  | inr half ↦
      let low : link_params / 2 / 2 % 2 ≡ 0 = ground (arith, half) in
      rw (half, low) (bit_at_cleared 10 r.command (2 ^ 32 - 1 - 2 ^ 10) refl)
]

set_up :
    (link_params : ℕ) (at : Arrays) (blocks : ℕ → ℕ) (r : EmacRegisters)
    → IsSetUp link_params blocks (start_rings at blocks (set_link link_params (init_mac r)))
unfolding start_rings set_link init_mac
set_up link_params at blocks r =
    let c = (set_link link_params (init_mac r)).command in
    record {
      fast = unfold set_link in refl;
      duplex = bit_at_kept 10 c 643 refl ∙ duplex_mode link_params (init_mac r);
      receives = bit_at_set 0 c 643 refl;
      transmits = bit_at_set 1 c 643 refl;
      rmii = bit_at_set 9 c 643 refl;
      receive_enable = bit_at_set 0 (set_link link_params (init_mac r)).mac1 1 refl;
      interrupts = bit_at_set 3 (set_link link_params (init_mac r)).int_enable 8 refl;
      empty_rx = refl;
      empty_tx = refl;
      last_rx = refl;
      last_tx = refl;
      unmasked = bit_at_set 28 r.iser0 (2 ^ 28) refl;
      fragments = λ i below. ap (λ (d : RxDescriptor). d.packet) (filled i below);
      sized = λ i below. ap (λ (d : RxDescriptor). d.control % 2 ^ 11 + 1) (filled i below);
    }
  where
    filled :
        (i : ℕ)
        → i < desc_len
        → rx_descriptors (desc_len + 1) 0 blocks r.rx_desc i ≡ set_in blocks i
    filled i below =
        let now : in_loop 0 i ≡ true = ground (arith, below) in
        rx_descriptors-set_in (desc_len + 1) 0 blocks r.rx_desc i refl ∙ rw now refl

kept_behind :
    (link_params : ℕ) (at : Arrays) (blocks : ℕ → ℕ) (r : EmacRegisters) (i : ℕ)
    → desc_len ≤ i
    → (start_rings at blocks (set_link link_params (init_mac r))).rx_desc i ≡ r.rx_desc i
unfolding start_rings set_link init_mac
kept_behind link_params at blocks r i past =
    let out : in_loop 0 i ≡ false = ground (arith, past) in
    rx_descriptors-set_in (desc_len + 1) 0 blocks r.rx_desc i refl ∙ rw out refl

-- With a PHY that is never busy for long, comes out of reset and gets a link, emac_init ends,
-- also through its waits, after it has written the reset and then the start of auto negotiation
-- to the PHY and nothing else; the speed and the duplex mode of the controller are then those of
-- the link parameters last read, receiving, transmitting and the receive interrupt are enabled,
-- both rings are empty, each of the twelve receive descriptors has the block that get_mem
-- returned in its round, with 127 bytes of room, and nothing is written behind them.
pub emac_init-IsSetUp :
    (fuel later : ℕ) (phy : Phy) (at : Arrays) (blocks : ℕ → ℕ) (m : Mii) (r : EmacRegisters)
    → Answers fuel phy
    → later < fuel
    → ((t : ℕ) → later ≤ t → out_of_reset (phy.mrdd t (phy_reg 0) % 2 ^ 16) ≡ true)
    → ((t : ℕ) → later ≤ t → link_ready (phy.mrdd t (phy_reg 0x10) % 2 ^ 16) ≡ true)
    → (m' : Mii) × (r' : EmacRegisters) × (emac_init fuel phy at blocks m r ≡ some (r', m'))
      × IsSetUp (phy.mrdd m'.now (phy_reg 0x10) % 2 ^ 16) blocks r'
      × ((i : ℕ) → desc_len ≤ i → r'.rx_desc i ≡ r.rx_desc i)
      × (m'.written ≡ m.written ++ (0, 2 ^ 15) ∷ (0, 2 ^ 12) ∷ [])
unfolding emac_init
emac_init-IsSetUp fuel later phy at blocks m r answers enough resets links =
    let (m', run, log) = init_phy-some fuel phy answers later enough resets links m in
    let link_params = phy.mrdd m'.now (phy_reg 0x10) % 2 ^ 16 in
    (
      m',
      start_rings at blocks (set_link link_params (init_mac r)),
      rw (emac_init, run) refl,
      set_up link_params at blocks r,
      kept_behind link_params at blocks r,
      log,
    )
