-- ===== src/Arp.antt =====
-- arp.c and arp.h: the address table, the requests that wait for an answer, and the handler.
pub mod Laws
pub mod Wire
use lpc17xx_network.Base.{
  ℕ, ◌+◌, ◌*◌, List, [], ◌∷◌, ◌++◌, Bool, true, false, Option, none, some, ltb, ◌==◌, if◌then◌else◌,
  replicate,
}
use lpc17xx_network.Base.Run.{Run, ok, fault, halted}
use lpc17xx_network.Base.Wire.{
  Read, read_u8, read_u16, read_u32, read_bytes, ◌>>=◌, pure, bytes_of_words, low16, high16,
}
use lpc17xx_network.ByteSwap.{swap_endian16, swap_endian32}
use lpc17xx_network.Packet.{Packet, ProtocolType}
use lpc17xx_network.Effect.{Effect, ether_xmit, wakeup, arp_waitqueue}
use lpc17xx_network.Ethernet.{our_ip_address, ethertype_ip, ethertype_arp, ethernet_mac_equal}

abbrev pub arp_timeout : ℕ
arp_timeout = 250

abbrev pub htype_ethernet : ℕ
htype_ethernet = 1

abbrev pub oper_request : ℕ
oper_request = 1

abbrev pub oper_reply : ℕ
oper_reply = 2

-- arp_packet.
pub record ArpPacket : Type 0 where
  pub htype : ℕ
  pub ptype : ℕ
  pub hlen : ℕ
  pub plen : ℕ
  pub oper : ℕ
  pub sha : List ℕ
  pub spa : ℕ
  pub tha : List ℕ
  pub tpa : ℕ

unfoldable pub read_arp : Read ArpPacket
read_arp = do
  hardware ← read_u16
  proto ← read_u16
  hlength ← read_u8
  plength ← read_u8
  operation ← read_u16
  sender ← read_bytes 6
  sender_ip ← read_u32
  target ← read_bytes 6
  target_ip ← read_u32
  pure (record {
    htype = hardware;
    ptype = proto;
    hlen = hlength;
    plen = plength;
    oper = operation;
    sha = sender;
    spa = sender_ip;
    tha = target;
    tpa = target_ip;
  })

-- The 28 bytes of the structure.
unfoldable pub arp_bytes : ArpPacket → List ℕ
arp_bytes p =
    bytes_of_words (p.htype ∷ p.ptype ∷ (p.hlen + p.plen * 256) ∷ p.oper ∷ [])
    ++ (p.sha
        ++ (bytes_of_words (low16 p.spa ∷ high16 p.spa ∷ [])
            ++ (p.tha ++ bytes_of_words (low16 p.tpa ∷ high16 p.tpa ∷ []))))

unfoldable pub arp_swap_endian : ArpPacket → ArpPacket
arp_swap_endian packet = record packet {
  htype = swap_endian16 packet.htype;
  ptype = swap_endian16 packet.ptype;
  oper = swap_endian16 packet.oper;
  spa = swap_endian32 packet.spa;
  tpa = swap_endian32 packet.tpa;
}

pub record ArpEntry : Type 0 where
  pub ether_addr : List ℕ
  pub ipaddr : ℕ

-- struct arp_pending_request: `self` is its address, on the stack of the process that waits.
pub record ArpPending : Type 0 where
  pub self : ℕ
  pub tick_count : ℕ
  pub tpa : ℕ
  pub timed_out : Bool
  pub finished : Bool
  pub answer : Option (List ℕ)

-- The lists arp_table_head and arp_pending_requests, and the requests that were taken off the
-- latter, which their processes still look at.
pub record ArpState : Type 0 where
  pub table : List ArpEntry
  pub pending : List ArpPending
  pub settled : List ArpPending

-- The body of the loop of arp_tick: the test is of the count before it is increased.
unfoldable pub tick_request : ArpPending → ArpPending
tick_request r =
    let counted = record r { tick_count = r.tick_count + 1 } in
    if ltb r.tick_count arp_timeout
    then counted
    else record counted { finished = true; timed_out = true }

unfoldable pub tick_requests : List ArpPending → List ArpPending × List ArpPending
tick_requests [] = ([], [])
tick_requests (r ∷ rs) =
    let (kept, out) = tick_requests rs in
    if ltb r.tick_count arp_timeout
    then (tick_request r ∷ kept, out)
    else (kept, tick_request r ∷ out)

-- arp_tick: it wakes no queue.
unfoldable pub arp_tick : ArpState → ArpState
arp_tick s =
    let (kept, out) = tick_requests s.pending in
    record s { pending = kept; settled = out ++ s.settled }

unfoldable pub lookup_entry : ℕ → List ArpEntry → Option (List ℕ)
lookup_entry ip [] = none
lookup_entry ip (e ∷ es) =
    let rest = lookup_entry ip es in if e.ipaddr == ip then some e.ether_addr else rest

-- The request for an address, before the swap.
unfoldable pub arp_request : List ℕ → ℕ → ArpPacket
arp_request ether_addr ip_address = record {
  htype = htype_ethernet;
  ptype = ethertype_ip;
  hlen = 6;
  plen = 4;
  oper = oper_request;
  sha = ether_addr;
  spa = our_ip_address;
  tha = replicate 6 0;
  tpa = ip_address;
}

-- What resolve_address does up to its wait.
pub data Resolution : Type 0 where
  -- The address is known: it is returned.
  known : List ℕ → Resolution
  -- A request is listed and broadcast, and the process waits for it.
  asked : ArpState → Effect → Resolution

-- Beside it the interrupt mask that is left: a known address is returned from inside the section
-- with interrupts disabled.
unfoldable pub resolve_address_start : ℕ → List ℕ → ℕ → Bool → ArpState → Bool × Resolution
resolve_address_start self ether_addr ip_address masked s = elim (lookup_entry ip_address s.table) [
  | some mac ↦ (true, known mac)
  | none ↦ (
    masked,
    asked
        (record s {
          pending =
              record {
                self = self;
                tick_count = 0;
                tpa = ip_address;
                timed_out = false;
                finished = false;
                answer = none;
              }
              ∷ s.pending;
        })
        (ether_xmit (replicate 6 0xFF) ethertype_arp
          (arp_bytes (arp_swap_endian (arp_request ether_addr ip_address))) 28),
  )
]

-- What resolve_address returns after its wait; NULL is none.
unfoldable pub resolve_address_end : ArpPending → Option (List ℕ)
resolve_address_end r = if r.timed_out then none else r.answer

-- The reply to a request, before the swap.
unfoldable pub arp_reply : List ℕ → ArpPacket → ArpPacket
arp_reply ether_addr packet = record {
  htype = htype_ethernet;
  ptype = ethertype_ip;
  hlen = 6;
  plen = 4;
  oper = oper_reply;
  sha = ether_addr;
  spa = our_ip_address;
  tha = packet.sha;
  tpa = packet.spa;
}

-- The search of a reply for the request that it answers: that request, and the others.
unfoldable pub take_pending : ℕ → List ArpPending → Option (ArpPending × List ArpPending)
take_pending spa [] = none
take_pending spa (r ∷ rs) =
    let rest : Option (ArpPending × List ArpPending) = elim (take_pending spa rs) [
      | none ↦ none
      | some (q, qs) ↦ some (q, r ∷ qs)
    ] in
    if r.tpa == spa then some (r, rs) else rest

-- The loop of the reply case.
unfoldable pub settle : ArpPacket → ArpState → ArpState
settle packet s = elim (take_pending packet.spa s.pending) [
  | none ↦ s
  | some (r, rs) ↦ record s {
    table = record { ether_addr = packet.sha; ipaddr = packet.spa } ∷ s.table;
    pending = rs;
    settled = record r { answer = some packet.sha; finished = true } ∷ s.settled;
  }
]

-- arp_rx_packet after the packet is read and swapped.
unfoldable pub arp_handle : List ℕ → ArpPacket → ArpState → ArpState × List Effect
arp_handle ether_addr packet s =
    if packet.htype == htype_ethernet
    then (if packet.oper == oper_request
        then (if packet.tpa == our_ip_address
            then (
              s,
              ether_xmit packet.sha ethertype_arp
                    (arp_bytes (arp_swap_endian (arp_reply ether_addr packet))) 28
                  ∷ [],
            )
            else (s, []))
        else if packet.oper == oper_reply
        then (if ethernet_mac_equal ether_addr packet.tha
            then (settle packet s, wakeup arp_waitqueue ∷ [])
            else (s, []))
        else (s, []))
    else (s, [])

unfoldable pub arp_rx_packet : List ℕ → Packet → ArpState → Run (Packet × ArpState × List Effect)
arp_rx_packet ether_addr pkt s = elim (read_arp pkt.cur_data) [
  | fault ↦ fault
  | halted ↦ halted
  | ok (packet, rest) ↦
      let (s', effects) = arp_handle ether_addr (arp_swap_endian packet) s in
      ok (record pkt { handler = ProtocolType.drop }, s', effects)
]
