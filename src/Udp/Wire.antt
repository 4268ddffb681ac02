-- ===== src/Udp/Wire.antt =====
-- The bytes of a UDP header, and the loop of udp_rx_packet over the listeners.
use lpc17xx_network.Base.{
  ℕ, ◌^◌, ◌≤◌, ◌<◌, ◌≡◌, refl, arith, List, [], ◌∷◌, ◌++◌, map, false, ◌==◌, Bool-cases, inl, inr,
  if◌then◌else◌, length, ge→ltb, ltb,
}
use lpc17xx_network.Base.Run.{ok}
use lpc17xx_network.Effect.{WaitQueue, udp_waitq}
use lpc17xx_network.Udp.{
  UdpHeader, read_udp, udp_bytes, UdpListener, bytes_to_copy, udp_copy, udp_deliver,
}

-- Every field is within its width.
pub record IsHeader (h : UdpHeader) : Type 0 where
  pub src_port_lt : h.src_port < 2 ^ 16
  pub dst_port_lt : h.dst_port < 2 ^ 16
  pub length_lt : h.length < 2 ^ 16
  pub checksum_lt : h.checksum < 2 ^ 16

-- A UDP header is read back from its eight bytes, and what follows them is left.
pub read_udp-udp_bytes :
    (h : UdpHeader) (rest : List ℕ) → IsHeader h → read_udp (udp_bytes h ++ rest) ≡ ok (h, rest)
unfolding read_udp udp_bytes
read_udp-udp_bytes h rest v = ground arith

-- What a datagram makes of a listener: one on its port takes what fits.
abbrev pub hears : ℕ → List ℕ → ℕ → UdpListener → UdpListener
hears port payload payload_sz i = if i.port == port then udp_copy i payload payload_sz else i

-- The queue is woken once for each of them.
abbrev pub wakes : ℕ → List UdpListener → List WaitQueue
wakes port [] = []
wakes port (i ∷ is) = let rest = wakes port is in if i.port == port then udp_waitq ∷ rest else rest

bytes_to_copy-le : (i : UdpListener) (n : ℕ) → bytes_to_copy i n ≤ n
unfolding bytes_to_copy
bytes_to_copy-le i n = ground arith

-- A datagram that is as long as it says is heard by every listener, and no copy passes its end.
pub udp_deliver-map :
    (port : ℕ) (payload : List ℕ) (payload_sz : ℕ) (listeners : List UdpListener)
    → payload_sz ≤ length payload
    → udp_deliver port payload payload_sz listeners
      ≡ ok (map (hears port payload payload_sz) listeners, wakes port listeners)
unfolding udp_deliver
udp_deliver-map port payload payload_sz [] long = refl
udp_deliver-map port payload payload_sz (i ∷ is) long =
    let inside : ltb (length payload) (bytes_to_copy i payload_sz) ≡ false =
      ge→ltb (length payload) (bytes_to_copy i payload_sz)
        (omega (arith, bytes_to_copy-le i payload_sz)) in
    rw (udp_deliver, udp_deliver-map port payload payload_sz is long, inside)
      (elim (Bool-cases (i.port == port)) [ inl on ↦ rw on refl | inr off ↦ rw off refl ])
