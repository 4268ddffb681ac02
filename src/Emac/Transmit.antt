-- ===== src/Emac/Transmit.antt =====
-- The two descriptors of emac_xmit_frame as the controller reads them.
use lpc17xx_network.Base.{
  ℕ, ◌+◌, ◌-◌, ◌/◌, ◌%◌, ◌^◌, ◌<◌, ◌≤◌, ◌≡◌, ◌≢◌, refl, sym, ◌∙◌, ap, ap₂, arith, List, ◌++◌, Bool,
  true, false, ◌==◌, bit_or, sub32, length, take, take-length,
}
use lpc17xx_network.Base.Bits.{bit_or_above}
use lpc17xx_network.Emac.{desc_len, TxDescriptor, emac_xmit_frame}

-- The bytes that a descriptor stands for: the low 11 bits of its control word hold their number
-- less one, and bit 30 marks the last piece of a frame.
abbrev pub bytes_sent : TxDescriptor → List ℕ
bytes_sent d = take (d.control % 2 ^ 11 + 1) d.packet

abbrev pub ends_frame : TxDescriptor → Bool
ends_frame d = d.control / 2 ^ 30 % 2 == 1

flagged : (len : ℕ) → 0 < len → len ≤ 2 ^ 11 → bit_or (sub32 len 1) (2 ^ 30) ≡ 2 ^ 30 + (len - 1)
flagged len some_bytes short = bit_or_above 30 1 (sub32 len 1) (omega arith) ∙ omega arith

-- For an index within the ring, a header of 14 bytes and a payload of 1 to 2048 bytes, the two
-- descriptors of emac_xmit_frame stand for the header followed by the payload, the second one
-- alone ends the frame, they are in different slots next to each other, and the next index is
-- within the ring and two further on.
pub emac_xmit_frame-frame :
    (produce : ℕ) (header payload : List ℕ) (payload_len : ℕ)
    → produce < desc_len
    → length header ≡ 14
    → 0 < payload_len
    → payload_len ≤ 2 ^ 11
    → let (first, second, next) = emac_xmit_frame produce header payload payload_len in
      (bytes_sent first ++ bytes_sent second ≡ header ++ take payload_len payload)
      × (ends_frame first ≡ false)
      × (ends_frame second ≡ true)
      × (first.index ≡ produce)
      × (second.index ≡ (produce + 1) % desc_len)
      × (first.index ≢ second.index)
      × (next ≡ (produce + 2) % desc_len)
      × (next < desc_len)
unfolding emac_xmit_frame
emac_xmit_frame-frame produce header payload payload_len in_ring sized some_bytes short =
    let word = flagged payload_len some_bytes short in
    let len : bit_or (sub32 payload_len 1) (2 ^ 30) % 2 ^ 11 + 1 ≡ payload_len =
      omega (arith, word) in
    let last : bit_or (sub32 payload_len 1) (2 ^ 30) / 2 ^ 30 % 2 ≡ 1 = omega (arith, word) in
    (
      ap₂ (λ xs ys. xs ++ ys) (ap (λ n. take n header) (sym sized) ∙ take-length header)
          (ap (λ n. take n payload) len),
      refl,
      rw last refl,
      omega arith,
      refl,
      λ e. omega (arith, e),
      omega arith,
      omega arith,
    )
