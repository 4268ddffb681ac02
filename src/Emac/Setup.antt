-- ===== src/Emac/Setup.antt =====
-- emac_init, phy_write and phy_read of emac.c. The answers of the PHY and the blocks that get_mem
-- returns are arguments.
pub mod Link
use lpc17xx_network.Base.{
  ℕ, zero, suc, ◌+◌, ◌*◌, ◌/◌, ◌%◌, ◌^◌, ◌-◌, List, [], ◌∷◌, Bool, true, false, Option, none, some,
  ◌==◌, not, if◌then◌else◌, bit_or, bit_and, drop, ltb, ◌++◌,
}
use lpc17xx_network.Emac.{desc_len}

abbrev pub rx_frag_buf_sz : ℕ
rx_frag_buf_sz = 127

abbrev pub phy_addr : ℕ
phy_addr = 1

abbrev pub mac_address : List ℕ
mac_address = 0 ∷ 1 ∷ 2 ∷ 3 ∷ 4 ∷ 5 ∷ []

-- `mac_address[i]`
abbrev pub mac_byte : ℕ → ℕ
mac_byte i = elim (drop i mac_address) [ [] ↦ 0 | b ∷ bs ↦ b ]

-- The PHY and the link to it: what a read of MIND gives at a time, and what MRDD holds for an
-- address in MADR. The time counts the reads of MIND.
pub record Phy : Type 0 where
  pub mind : ℕ → ℕ
  pub mrdd : ℕ → ℕ → ℕ

pub record Mii : Type 0 where
  pub mcmd : ℕ
  pub madr : ℕ
  pub mwtd : ℕ
  pub now : ℕ
  -- The registers of the PHY that were written, with their values, in order.
  pub written : List (ℕ × ℕ)

-- `while (LPC_EMAC->MIND & 0x1) {};` on fuel: the time after it; none when the fuel runs out.
unfoldable pub wait_idle : ℕ → Phy → ℕ → Option ℕ
wait_idle zero phy now = none
wait_idle (suc n) phy now =
    let rest = wait_idle n phy (suc now) in if phy.mind now % 2 == 1 then rest else some (suc now)

abbrev pub phy_reg : ℕ → ℕ
phy_reg reg = bit_or reg (phy_addr * 2 ^ 8)

unfoldable pub phy_write : ℕ → Phy → ℕ → ℕ → Mii → Option Mii
unfolding wait_idle
phy_write fuel phy reg writeval m = elim (wait_idle fuel phy m.now) [
  | none ↦ none
  | some now ↦ some (record {
    mcmd = 0;
    madr = phy_reg reg;
    mwtd = writeval;
    now = now;
    written = m.written ++ (reg, writeval) ∷ [];
  })
]

unfoldable pub phy_read : ℕ → Phy → ℕ → Mii → Option (ℕ × Mii)
unfolding wait_idle
phy_read fuel phy reg m = elim (wait_idle fuel phy m.now) [
  | none ↦ none
  | some now ↦
      some
        (phy.mrdd now (phy_reg reg) % 2 ^ 16, record m { mcmd = 0; madr = phy_reg reg; now = now })
]

-- A loop on phy_read that ends when an answer passes the test.
unfoldable pub read_until : (ℕ → Bool) → ℕ → ℕ → Phy → ℕ → Mii → Option Mii
unfolding phy_read
read_until test zero fuel phy reg m = none
read_until test (suc n) fuel phy reg m = elim (phy_read fuel phy reg m) [
  | none ↦ none
  | some (v, m') ↦ elim (test v) [ true ↦ some m' | false ↦ read_until test n fuel phy reg m' ]
]

unfoldable pub out_of_reset : ℕ → Bool
out_of_reset v = v / 2 ^ 15 % 2 == 0

unfoldable pub link_ready : ℕ → Bool
link_ready v = not (bit_and v (bit_or 1 (2 ^ 4)) == 0)

-- What emac_init does with the PHY: it ends with the link's parameters.
unfoldable pub init_phy : ℕ → Phy → Mii → Option (ℕ × Mii)
unfolding phy_write phy_read read_until
init_phy fuel phy m = elim (phy_write fuel phy 0 (2 ^ 15) m) [
  | none ↦ none
  | some m1 ↦ elim (read_until out_of_reset fuel fuel phy 0 m1) [
    | none ↦ none
    | some m2 ↦ elim (phy_write fuel phy 0 (2 ^ 12) m2) [
      | none ↦ none
      | some m3 ↦ elim (read_until link_ready fuel fuel phy 0x10 m3) [
        | none ↦ none
        | some m4 ↦ phy_read fuel phy 0x10 m4
      ]
    ]
  ]
]

pub record RxDescriptor : Type 0 where
  pub packet : ℕ
  pub control : ℕ

-- The registers and the static variables that emac_init sets.
pub record EmacRegisters : Type 0 where
  pub pconp : ℕ
  pub pinsel2 : ℕ
  pub pinsel3 : ℕ
  pub mac1 : ℕ
  pub mac2 : ℕ
  pub ipgt : ℕ
  pub ipgr : ℕ
  pub command : ℕ
  pub supp : ℕ
  pub sa0 : ℕ
  pub sa1 : ℕ
  pub sa2 : ℕ
  pub rx_descriptor : ℕ
  pub tx_descriptor : ℕ
  pub tx_status : ℕ
  pub rx_status : ℕ
  pub rx_descriptor_number : ℕ
  pub tx_descriptor_number : ℕ
  pub rx_consume_index : ℕ
  pub tx_produce_index : ℕ
  pub int_enable : ℕ
  pub iser0 : ℕ
  pub rx_desc : ℕ → RxDescriptor
  pub ether_addr : List ℕ

-- Up to the reset of the PHY.
unfoldable pub init_mac : EmacRegisters → EmacRegisters
init_mac r = record r {
  pconp = bit_or r.pconp (2 ^ 30);
  pinsel2 = 0x50150105;
  pinsel3 = 5;
  mac1 = 0;
  mac2 = bit_or r.mac2 (bit_or 1 (bit_or (2 ^ 4) (2 ^ 5)));
  ipgt = 0x15;
  ipgr = bit_or 0x12 (0xC * 2 ^ 8);
  command = bit_or r.command (2 ^ 9);
}

-- The speed and the duplex mode.
unfoldable pub set_link : ℕ → EmacRegisters → EmacRegisters
set_link link_params r = record r {
  supp = if link_params / 2 % 2 == 0 then 2 ^ 8 else 0;
  command =
      if link_params / 4 % 2 == 1
      then bit_or r.command (2 ^ 10)
      else bit_and r.command (2 ^ 32 - 1 - 2 ^ 10);
}

-- `for (i = 0; i < DESC_LEN; i++)` over rx_desc, from `i` on; `blocks i` is the address that get_mem
-- returns in the round `i`.
unfoldable pub rx_descriptors : ℕ → ℕ → (ℕ → ℕ) → (ℕ → RxDescriptor) → ℕ → RxDescriptor
rx_descriptors zero i blocks rx_desc = rx_desc
rx_descriptors (suc n) i blocks rx_desc =
    let d : RxDescriptor = record {
      packet = blocks i;
      control = bit_or (rx_frag_buf_sz - 1) (2 ^ 31);
    } in
    let rest = rx_descriptors n (suc i) blocks (λ (q : ℕ). if q == i then d else rx_desc q) in
    if ltb i desc_len then rest else rx_desc

-- The addresses of the arrays.
pub record Arrays : Type 0 where
  pub rx_desc_at : ℕ
  pub tx_desc_at : ℕ
  pub tx_status_at : ℕ
  pub rx_status_at : ℕ

-- From the station address on. ISER0 sets the bits that are written as ones.
unfoldable pub start_rings : Arrays → (ℕ → ℕ) → EmacRegisters → EmacRegisters
unfolding rx_descriptors
start_rings at blocks r = record r {
  sa0 = bit_or (mac_byte 0 * 2 ^ 8) (mac_byte 1);
  sa1 = bit_or (mac_byte 2 * 2 ^ 8) (mac_byte 3);
  sa2 = bit_or (mac_byte 4 * 2 ^ 8) (mac_byte 5);
  rx_desc = rx_descriptors (desc_len + 1) 0 blocks r.rx_desc;
  ether_addr = mac_address;
  rx_descriptor = at.rx_desc_at;
  tx_descriptor = at.tx_desc_at;
  tx_status = at.tx_status_at;
  rx_status = at.rx_status_at;
  rx_descriptor_number = desc_len - 1;
  tx_descriptor_number = desc_len - 1;
  rx_consume_index = 0;
  tx_produce_index = 0;
  mac1 = bit_or r.mac1 1;
  int_enable = bit_or r.int_enable (2 ^ 3);
  command = bit_or r.command (bit_or 3 (bit_or (2 ^ 9) (2 ^ 7)));
  iser0 = bit_or r.iser0 (2 ^ 28);
}

unfoldable pub emac_init :
    ℕ → Phy → Arrays → (ℕ → ℕ) → Mii → EmacRegisters → Option (EmacRegisters × Mii)
unfolding init_mac init_phy set_link start_rings
emac_init fuel phy at blocks m r = elim (init_phy fuel phy m) [
  | none ↦ none
  | some (link_params, m') ↦ some (start_rings at blocks (set_link link_params (init_mac r)), m')
]
