-- ===== src/Protocol/Dispatch.antt =====
-- The loop of rx_task, by the layers that a packet has to go.
use lpc17xx_network.Base.{
  ℕ, zero, suc, ◌≡◌, ◌<◌, refl, subst, arith, List, [], ◌∷◌, true, Option, none, some, inl, inr,
  Bool-cases, if◌then◌else◌,
}
use lpc17xx_network.Base.Run.{Run, ok, fault, halted}
use lpc17xx_network.Packet.{
  ProtocolType, ethernet, ipv4, udp, tcp, arp, drop, Packet, packet_destroy,
}
use lpc17xx_network.Protocol.{
  same_type, Handler, Protocols, resolve_pkt_protocol, rx_layer, rx_packet_loop,
}

-- How many layers a packet can still go through.
abbrev pub layers : ProtocolType → ℕ
layers ethernet = 3
layers ipv4 = 2
layers udp = 1
layers tcp = 1
layers arp = 1
layers drop = 0

pub layers_zero : (a : ProtocolType) → layers a ≡ 0 → same_type a drop ≡ true
layers_zero ethernet e = absurd (omega arith)
layers_zero ipv4 e = absurd (omega arith)
layers_zero udp e = absurd (omega arith)
layers_zero tcp e = absurd (omega arith)
layers_zero arp e = absurd (omega arith)
layers_zero drop e = refl

-- A handler for packets marked `a` hands a packet to a layer further in, or drops it, and keeps
-- the addresses of its blocks.
pub data Descends {S : Type 0} (a : ProtocolType) (pkt : Packet) : Run (Packet × S) → Type 0 where
  down :
      {pkt' : Packet} {s : S}
      → layers pkt'.handler < layers a
      → pkt'.data_addr ≡ pkt.data_addr
      → pkt'.self ≡ pkt.self
      → Descends a pkt (ok (pkt', s))
  faults : Descends a pkt fault
  halts : Descends a pkt halted

abbrev pub IsLayer : {S : Type 0} → ProtocolType → Handler S → Type 0
IsLayer {S} a h = (pkt : Packet) (s : S) → pkt.handler ≡ a → Descends a pkt (h pkt s)

-- Every registered handler is one for its type.
abbrev pub AreLayers : {S : Type 0} → Protocols S → Type 0
AreLayers [] = Unit {0}
AreLayers ((a, h) ∷ ps) = IsLayer a h × AreLayers ps

-- The loop ended: at a fault, at a trap, or with the frame and the packet given back.
pub data Ended {S : Type 0} (pkt : Packet) : Option (Run (List ℕ × S)) → Type 0 where
  destroyed : {s : S} → Ended pkt (some (ok (pkt.data_addr ∷ pkt.self ∷ [], s)))
  faulted : Ended pkt (some fault)
  trapped : Ended pkt (some halted)

same_type-eq : (a b : ProtocolType) → same_type a b ≡ true → a ≡ b
same_type-eq a b e = ground arith

module _ {S : Type 0} where
  resolve-IsLayer :
      (a : ProtocolType) (ps : Protocols S) (h : Handler S)
      → AreLayers ps
      → resolve_pkt_protocol a ps ≡ some h
      → IsLayer a h
  unfolding resolve_pkt_protocol
  resolve-IsLayer a [] h l e = cc
  resolve-IsLayer a ((b, g) ∷ ps) h (good, l) e = elim (Bool-cases (same_type b a)) [
    | inl hit ↦
        let same : g ≡ h = ground arith in
        subst (λ x. IsLayer a x) same (subst (λ x. IsLayer x g) (same_type-eq b a hit) good)
    | inr miss ↦ resolve-IsLayer a ps h l (ground arith)
  ]

  -- What one round of the loop makes of a packet.
  data Round (pkt : Packet) : Run (Packet × S) → Type 0 where
    dropped :
        {s : S} {pkt' : Packet}
        → same_type pkt'.handler drop ≡ true
        → pkt'.data_addr ≡ pkt.data_addr
        → pkt'.self ≡ pkt.self
        → Round pkt (ok (pkt', s))
    descends : {r : Run (Packet × S)} → Descends pkt.handler pkt r → Round pkt r

  rx_layer-Round :
      (ps : Protocols S) (pkt : Packet) (s : S) → AreLayers ps → Round pkt (rx_layer ps pkt s)
  unfolding rx_layer
  rx_layer-Round ps pkt s l = go (resolve_pkt_protocol pkt.handler ps) refl
    where
      go :
          (o : Option (Handler S))
          → resolve_pkt_protocol pkt.handler ps ≡ o
          → Round pkt (rx_layer ps pkt s)
      go none e = rw (e, rx_layer) (dropped refl refl refl)
      go (some h) e = rw (e, rx_layer) (descends (resolve-IsLayer pkt.handler ps h l e pkt s refl))

  -- The end of the loop is carried back to the packet that the round began with.
  Ended-back :
      {pkt pkt' : Packet} {r : Option (Run (List ℕ × S))}
      → pkt'.data_addr ≡ pkt.data_addr
      → pkt'.self ≡ pkt.self
      → Ended pkt' r
      → Ended pkt r
  Ended-back a b destroyed = rw (a, b) destroyed
  Ended-back a b faulted = faulted
  Ended-back a b trapped = trapped

  -- For handlers that each hand a packet to a layer further in or drop it, and keep the addresses
  -- of its blocks, the loop of rx_task ends within any number of rounds above the layers that the
  -- packet has to go, with both blocks given back, or at a fault or a trap.
  pub rx_packet_loop-Ended :
      (n : ℕ) (ps : Protocols S) (pkt : Packet) (s : S)
      → AreLayers ps
      → layers pkt.handler < n
      → Ended pkt (rx_packet_loop n ps pkt s)
  unfolding rx_packet_loop packet_destroy
  rx_packet_loop-Ended zero ps pkt s l fuel = absurd (omega arith)
  rx_packet_loop-Ended (suc n) ps pkt s l fuel =
      go (rx_layer ps pkt s) (rx_layer-Round ps pkt s l)
        (λ q t small. rx_packet_loop-Ended n ps q t l (omega arith))
    where
      go :
          (r : Run (Packet × S))
          → Round pkt r
          → ((q : Packet) (t : S)
              → layers q.handler < layers pkt.handler
              → Ended q (rx_packet_loop n ps q t))
          → Ended pkt (elim r [
            | fault ↦ some fault
            | halted ↦ some halted
            | ok (pkt', s') ↦
                let more = rx_packet_loop n ps pkt' s' in
                if same_type pkt'.handler drop then some (ok (packet_destroy pkt', s')) else more
          ])
      go _ (dropped {s = t} {pkt' = q} e a b) rest =
          rw e (Ended-back {pkt = pkt} {pkt' = q} a b destroyed)
      go _ (descends (down {pkt' = q} {s = t} lt a b)) rest =
          elim (Bool-cases (same_type q.handler drop)) [
            | inl e ↦ rw e (Ended-back {pkt = pkt} {pkt' = q} a b destroyed)
            | inr e ↦ rw e (Ended-back {pkt = pkt} {pkt' = q} a b (rest q t lt))
          ]
      go _ (descends faults) rest = faulted
      go _ (descends halts) rest = trapped
