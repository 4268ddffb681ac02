-- ===== src/Arp/Wire.antt =====
-- The bytes of an ARP packet, as they are sent and as they are read.
use lpc17xx_network.Base.{
  ℕ, ◌^◌, ◌<◌, ◌≡◌, refl, sym, ◌∙◌, ap, ap₂, arith, List, [], ◌∷◌, ◌++◌, length,
}
use lpc17xx_network.Base.Run.{ok}
use lpc17xx_network.ByteSwap.Laws.{
  swap_endian16-swap_endian16, swap_endian32-swap_endian32, swap_endian16-lt, swap_endian32-lt,
}
use lpc17xx_network.Arp.{ArpPacket, read_arp, arp_bytes, arp_swap_endian}

-- Every field is within its width, and the hardware addresses have six bytes.
pub record IsPacket (p : ArpPacket) : Type 0 where
  pub htype_lt : p.htype < 2 ^ 16
  pub ptype_lt : p.ptype < 2 ^ 16
  pub hlen_lt : p.hlen < 256
  pub plen_lt : p.plen < 256
  pub oper_lt : p.oper < 2 ^ 16
  pub sha_six : length p.sha ≡ 6
  pub spa_lt : p.spa < 2 ^ 32
  pub tha_six : length p.tha ≡ 6
  pub tpa_lt : p.tpa < 2 ^ 32

six :
    (l : List ℕ)
    → length l ≡ 6
    → (a : ℕ) × (b : ℕ) × (c : ℕ) × (d : ℕ) × (e : ℕ) × (f : ℕ) × (l ≡ a ∷ b ∷ c ∷ d ∷ e ∷ f ∷ [])
six [] h = absurd (omega arith)
six (a ∷ []) h = absurd (omega arith)
six (a ∷ b ∷ []) h = absurd (omega arith)
six (a ∷ b ∷ c ∷ []) h = absurd (omega arith)
six (a ∷ b ∷ c ∷ d ∷ []) h = absurd (omega arith)
six (a ∷ b ∷ c ∷ d ∷ e ∷ []) h = absurd (omega arith)
six (a ∷ b ∷ c ∷ d ∷ e ∷ f ∷ []) h = (a, b, c, d, e, f, refl)
six (a ∷ b ∷ c ∷ d ∷ e ∷ f ∷ g ∷ l) h = absurd (omega arith)

abbrev with_addresses : ArpPacket → List ℕ → List ℕ → ArpPacket
with_addresses p sender target = record p { sha = sender; tha = target }

read_explicit :
    (p : ArpPacket) (a b c d e f g h i j k l : ℕ) (rest : List ℕ)
    → IsPacket p
    → let q = with_addresses p (a ∷ b ∷ c ∷ d ∷ e ∷ f ∷ []) (g ∷ h ∷ i ∷ j ∷ k ∷ l ∷ []) in
      read_arp (arp_bytes q ++ rest) ≡ ok (q, rest)
unfolding read_arp arp_bytes
read_explicit p a b c d e f g h i j k l rest v = ground arith

-- An ARP packet is read back from its 28 bytes, and what follows them is left.
pub read_arp-arp_bytes :
    (p : ArpPacket) (rest : List ℕ) → IsPacket p → read_arp (arp_bytes p ++ rest) ≡ ok (p, rest)
read_arp-arp_bytes p rest v =
    let (a, b, c, d, e, f, sender) = six p.sha v.sha_six in
    let (g, h, i, j, k, l, target) = six p.tha v.tha_six in
    let same = ap₂ (with_addresses p) sender target in
    ap (λ (q : ArpPacket). read_arp (arp_bytes q ++ rest)) same
    ∙ read_explicit p a b c d e f g h i j k l rest v
    ∙ ap (λ (q : ArpPacket). ok (q, rest)) (sym same)

pub arp_swap_endian-arp_swap_endian :
    (p : ArpPacket) → IsPacket p → arp_swap_endian (arp_swap_endian p) ≡ p
unfolding arp_swap_endian
arp_swap_endian-arp_swap_endian p v =
    rw
      (
        swap_endian16-swap_endian16 p.htype v.htype_lt,
        swap_endian16-swap_endian16 p.ptype v.ptype_lt,
        swap_endian16-swap_endian16 p.oper v.oper_lt,
        swap_endian32-swap_endian32 p.spa v.spa_lt,
        swap_endian32-swap_endian32 p.tpa v.tpa_lt,
      )
      refl

pub arp_swap_endian-IsPacket : (p : ArpPacket) → IsPacket p → IsPacket (arp_swap_endian p)
unfolding arp_swap_endian
arp_swap_endian-IsPacket p v = record {
  htype_lt = swap_endian16-lt p.htype;
  ptype_lt = swap_endian16-lt p.ptype;
  hlen_lt = v.hlen_lt;
  plen_lt = v.plen_lt;
  oper_lt = swap_endian16-lt p.oper;
  sha_six = v.sha_six;
  spa_lt = swap_endian32-lt p.spa v.spa_lt;
  tha_six = v.tha_six;
  tpa_lt = swap_endian32-lt p.tpa v.tpa_lt;
}
