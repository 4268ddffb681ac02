-- ===== src/Arp/Laws.antt =====
-- The exchange that resolve_address begins and a reply ends.
use lpc17xx_network.Base.{
  replicate, ℕ, zero, suc, ◌+◌, ◌≡◌, refl, ◌∙◌, ap, arith, List, [], ◌∷◌, Bool, true, false, none,
  some, ==_refl, lt→ltb, ◌<◌, ◌≤◌,
}
use lpc17xx_network.Effect.{Effect, ether_xmit, wakeup, arp_waitqueue}
use lpc17xx_network.Ethernet.{ethertype_arp}
use lpc17xx_network.Ethernet.Laws.{ethernet_mac_equal_refl}
use lpc17xx_network.Arp.{
  ArpPacket, ArpEntry, ArpPending, ArpState, Resolution, lookup_entry, take_pending, settle,
  arp_handle, resolve_address_start, resolve_address_end, htype_ethernet, oper_reply, arp_tick,
  tick_request, arp_bytes, arp_swap_endian, arp_request, tick_requests, arp_timeout,
}

-- The packet is a reply to us from the holder of an address.
pub record IsReply (ether_addr : List ℕ) (packet : ArpPacket) : Type 0 where
  pub hardware : packet.htype ≡ htype_ethernet
  pub operation : packet.oper ≡ oper_reply
  pub target : packet.tha ≡ ether_addr

-- A request that resolve_address has listed, as it stands when it is listed.
abbrev pub listed : ℕ → ℕ → ArpPending
listed self ip = record {
  self = self;
  tick_count = 0;
  tpa = ip;
  timed_out = false;
  finished = false;
  answer = none;
}

-- The answered request.
abbrev pub answered : ArpPacket → ArpPending → ArpPending
answered packet r = record r { answer = some packet.sha; finished = true }

pub arp_handle-settle :
    (ether_addr : List ℕ) (packet : ArpPacket) (s : ArpState)
    → IsReply ether_addr packet
    → arp_handle ether_addr packet s ≡ (settle packet s, wakeup arp_waitqueue ∷ [])
unfolding arp_handle
arp_handle-settle ether_addr packet s v =
    rw (v.hardware, v.operation, v.target, ethernet_mac_equal_refl ether_addr) refl

take_pending_first :
    (self ip : ℕ) (rs : List ArpPending)
    → take_pending ip (listed self ip ∷ rs) ≡ some (listed self ip, rs)
unfolding take_pending
take_pending_first self ip rs = rw (take_pending, ==_refl ip) refl

-- The broadcast that asks for an address.
abbrev pub question : List ℕ → ℕ → Effect
question ether_addr ip =
    ether_xmit (replicate 6 0xFF) ethertype_arp
      (arp_bytes (arp_swap_endian (arp_request ether_addr ip))) 28

pub resolve_address_start-asked :
    (self ip : ℕ) (ether_addr : List ℕ) (masked : Bool) (s : ArpState)
    → lookup_entry ip s.table ≡ none
    → resolve_address_start self ether_addr ip masked s ≡ (
      masked,
      Resolution.asked (record s { pending = listed self ip ∷ s.pending }) (question ether_addr ip),
    )
unfolding resolve_address_start
resolve_address_start-asked self ip ether_addr masked s e = rw (resolve_address_start, e) refl

pub resolve_address_start-known :
    (self ip : ℕ) (ether_addr mac : List ℕ) (masked : Bool) (s : ArpState)
    → lookup_entry ip s.table ≡ some mac
    → resolve_address_start self ether_addr ip masked s ≡ (true, Resolution.known mac)
unfolding resolve_address_start
resolve_address_start-known self ip ether_addr mac masked s e = rw (resolve_address_start, e) refl

lookup_entry_first :
    (ip : ℕ) (mac : List ℕ) (es : List ArpEntry)
    → lookup_entry ip (record { ether_addr = mac; ipaddr = ip } ∷ es) ≡ some mac
unfolding lookup_entry
lookup_entry_first ip mac es = rw (lookup_entry, ==_refl ip) refl

pub settle_first :
    (packet : ArpPacket) (self : ℕ) (s : ArpState) (rs : List ArpPending)
    → s.pending ≡ listed self packet.spa ∷ rs
    → settle packet s ≡ record s {
      table = record { ether_addr = packet.sha; ipaddr = packet.spa } ∷ s.table;
      pending = rs;
      settled = answered packet (listed self packet.spa) ∷ s.settled;
    }
unfolding settle
settle_first packet self s rs e = rw (settle, e, take_pending_first self packet.spa rs) refl

-- When resolve_address asks for an unknown address and a reply to this host for that address
-- comes in next, the caller's request is taken off the pending list with the answer set, the
-- other requests are kept, the waiting processes are woken, the caller gets the sender's hardware
-- address, and a later call finds that address in the table at once; that later call returns with
-- interrupts left masked.
pub resolve_address_start-arp_handle :
    (self : ℕ) (ether_addr : List ℕ) (masked : Bool) (s : ArpState) (packet : ArpPacket)
    → lookup_entry packet.spa s.table ≡ none
    → IsReply ether_addr packet
    → (s' : ArpState) × (s'' : ArpState) × (resolve_address_start self ether_addr packet.spa masked
          s
        ≡ (masked, Resolution.asked s' (question ether_addr packet.spa)))
      × (arp_handle ether_addr packet s' ≡ (s'', wakeup arp_waitqueue ∷ []))
      × (s''.pending ≡ s.pending)
      × (s''.settled ≡ answered packet (listed self packet.spa) ∷ s.settled)
      × (resolve_address_end (answered packet (listed self packet.spa)) ≡ some packet.sha)
      × (resolve_address_start self ether_addr packet.spa masked s''
          ≡ (true, Resolution.known packet.sha))
unfolding resolve_address_end
resolve_address_start-arp_handle self ether_addr masked s packet unknown v =
    let s' = record s { pending = listed self packet.spa ∷ s.pending } in
    let s'' = record s {
      table = record { ether_addr = packet.sha; ipaddr = packet.spa } ∷ s.table;
      settled = answered packet (listed self packet.spa) ∷ s.settled;
    } in
    (
      s',
      s'',
      resolve_address_start-asked self packet.spa ether_addr masked s unknown,
      arp_handle-settle ether_addr packet s' v
          ∙ ap (λ t. (t, wakeup arp_waitqueue ∷ [])) (settle_first packet self s' s.pending refl),
      refl,
      refl,
      refl,
      resolve_address_start-known self packet.spa ether_addr packet.sha masked s''
          (lookup_entry_first packet.spa packet.sha s.table),
    )

-- arp_tick, a number of times.
abbrev pub arp_ticks : ℕ → ArpState → ArpState
arp_ticks zero s = s
arp_ticks (suc n) s = arp_ticks n (arp_tick s)

-- A request after some ticks.
abbrev pub aged : ℕ → ArpPending → ArpPending
aged n r = record r { tick_count = n }

arp_tick_young :
    (n : ℕ) (s : ArpState) (r : ArpPending)
    → n < arp_timeout
    → arp_tick (record s { pending = aged n r ∷ [] }) ≡ record s { pending = aged (suc n) r ∷ [] }
unfolding arp_tick tick_requests tick_request
arp_tick_young n s r young =
    rw (arp_tick, tick_requests, tick_request, lt→ltb n arp_timeout young)
      (ap (λ (m : ℕ). record s { pending = aged m r ∷ [] }) (omega arith))

arp_ticks_young :
    (n k : ℕ) (s : ArpState) (r : ArpPending)
    → k + n ≤ arp_timeout
    → arp_ticks n (record s { pending = aged k r ∷ [] })
      ≡ record s { pending = aged (k + n) r ∷ [] }
arp_ticks_young zero k s r young =
    ap (λ (m : ℕ). record s { pending = aged m r ∷ [] }) (omega arith)
arp_ticks_young (suc n) k s r young =
    ap (arp_ticks n) (arp_tick_young k s r (omega arith))
    ∙ arp_ticks_young n (suc k) s r (omega arith)
    ∙ ap (λ (m : ℕ). record s { pending = aged m r ∷ [] }) (omega arith)

-- A request that was given up.
abbrev pub given_up : ArpPending → ArpPending
given_up r = record r { tick_count = arp_timeout + 1; finished = true; timed_out = true }

pub arp_tick_old :
    (s : ArpState) (r : ArpPending)
    → arp_tick (record s { pending = aged arp_timeout r ∷ [] })
      ≡ record s { pending = []; settled = given_up r ∷ s.settled }
unfolding arp_tick tick_requests tick_request
arp_tick_old s r = refl

-- A new request that is alone on the pending list and gets no reply stays there, with its count,
-- through up to 250 ticks; the next tick takes it off as timed out, and its caller gets no
-- address.
pub arp_ticks-listed :
    (n self ip : ℕ) (s : ArpState)
    → n ≤ arp_timeout
    → s.pending ≡ listed self ip ∷ []
    → (arp_ticks n s ≡ record s { pending = aged n (listed self ip) ∷ [] })
      × (arp_tick (arp_ticks arp_timeout s)
          ≡ record s { pending = []; settled = given_up (listed self ip) ∷ s.settled })
      × (resolve_address_end (given_up (listed self ip)) ≡ none)
unfolding resolve_address_end
arp_ticks-listed n self ip s young e =
    let r = listed self ip in
    let same : s ≡ record s { pending = r ∷ [] } = ap (λ l. record s { pending = l }) e in
    (
      ap (arp_ticks n) same
          ∙ arp_ticks_young n 0 s r (omega arith)
          ∙ ap (λ (m : ℕ). record s { pending = aged m r ∷ [] }) (omega arith),
      ap (λ t. arp_tick (arp_ticks arp_timeout t)) same
          ∙ ap arp_tick (arp_ticks_young arp_timeout 0 s r (omega arith))
          ∙ arp_tick_old s r,
      refl,
    )
