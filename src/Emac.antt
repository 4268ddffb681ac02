-- ===== src/Emac.antt =====
-- emac.c: the gathering of received fragments and the transmit descriptors. The registers of the
-- controller and its memory are arguments.
pub mod Gather
pub mod Ring
pub mod Setup
pub mod Transmit
use lpc17xx_network.Base.{
  ℕ, ◌+◌, ◌-◌, ◌%◌, ◌/◌, ◌^◌, List, [], ◌∷◌, ◌++◌, Bool, true, false, Option, none, some, ◌==◌,
  if◌then◌else◌, length, take, drop, bit_and, bit_or, sub32, leb,
}
use lpc17xx_network.Base.Run.{Run, ok, fault, ◌>>=◌}
use lpc17xx_network.Packet.{Packet, ProtocolType, packet_create}

abbrev pub desc_len : ℕ
desc_len = 12

-- memcpy(buf + at, bytes, n) over the memory `buf`.
unfoldable pub copy_to : List ℕ → ℕ → List ℕ → List ℕ
copy_to buf at bytes = take at buf ++ (bytes ++ drop (at + length bytes) buf)

-- The two memcpy of the gathering branch of irq_enet; `block` is what get_mem returned. The
-- second one writes at `frag_len`, and is a fault where it passes the end of the block.
unfoldable pub gather : List ℕ → List ℕ → List ℕ → Run (List ℕ)
unfolding copy_to
gather block current_frame frag =
    if leb (length frag + length frag) (length block)
    then ok (copy_to (copy_to block 0 current_frame) (length frag) frag)
    else fault

-- A received descriptor: the fragment's bytes, and whether it is the last of its frame.
pub record Fragment : Type 0 where
  pub frag : List ℕ
  pub last_flag : Bool
  pub block : List ℕ

-- One round of the loop of irq_enet: the frame so far, and the complete frame, if there is one.
unfoldable pub enet_round : Option (List ℕ) → Fragment → Run (Option (List ℕ) × Option (List ℕ))
unfolding gather
enet_round current f = do
  frame ← elim current [ none ↦ ok f.frag | some so_far ↦ gather f.block so_far f.frag ]
  ok (if f.last_flag then (none, some frame) else (some frame, none))

-- `frag_len = (status_info & 0x7FF) + 1`, and the last-fragment flag in bit 30.
unfoldable pub frag_len : ℕ → ℕ
frag_len status_info = bit_and status_info 0x7FF + 1

unfoldable pub last_fragment : ℕ → Bool
last_fragment status_info = status_info / 2 ^ 30 % 2 == 1

-- The loop over the fragments that the controller has produced: the frame left over, and the
-- complete frames, in the order in which they are injected.
unfoldable pub irq_enet : Option (List ℕ) → List Fragment → Run (Option (List ℕ) × List (List ℕ))
irq_enet current [] = ok (current, [])
irq_enet current (f ∷ fs) = do
  (current', whole) ← enet_round current f
  (left, frames) ← irq_enet current' fs
  ok (left, elim whole [ none ↦ frames | some frame ↦ frame ∷ frames ])

-- The two descriptors that emac_xmit_frame fills, and the next value of TxProduceIndex.
pub record TxDescriptor : Type 0 where
  pub index : ℕ
  pub packet : List ℕ
  pub control : ℕ

unfoldable pub emac_xmit_frame : ℕ → List ℕ → List ℕ → ℕ → TxDescriptor × TxDescriptor × ℕ
emac_xmit_frame produce header payload payload_len =
    let first = produce % desc_len in
    let second = (produce + 1) % desc_len in
    (
      record { index = first; packet = header; control = 14 - 1 },
      record { index = second; packet = payload; control = bit_or (sub32 payload_len 1) (2 ^ 30) },
      (second + 1) % desc_len,
    )
