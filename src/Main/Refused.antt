-- ===== src/Main/Refused.antt =====
-- The program of main.c and a host that does not accept its call.
use lpc17xx_network.Base.{ℕ, ◌≡◌, refl, List, [], ◌∷◌, none, true, false, ◌&&◌, ==_refl}
use lpc17xx_network.Base.Run.{ok, fault}
use lpc17xx_network.Effect.{tcp_waitq}
use lpc17xx_network.Tcp.{closed, Tcb}
use lpc17xx_network.Tcp.Receive.{
  Segment, stays, matches, guarded, switch, on_syn_sent, finish, tcp_rx,
}
use lpc17xx_network.Tcp.Calls.{
  tcp_connect_start, tcp_connect_waits, tcp_connect_keeps, unlisted, tcp_connect_end,
}
use lpc17xx_network.Tcp.Exchange.Handshake.{calling, tcp_rx-first, find_tcb-first}
use lpc17xx_network.Main.{main_connects, main_sends}

-- When the answer to the call of main is anything but a SYN with an acknowledgement, tcp_connect
-- stops waiting, unlinks its connection, leaves the others alone and returns NULL; main passes
-- that on to tcp_tx_data, which accesses it.
pub main-refused :
    (self : ℕ) (block : List ℕ) (others : List Tcb) (s : Segment)
    → matches s (calling self block 5757 0xc0a80476) ≡ true
    → (s.header.syn && s.header.ack) ≡ false
    → (t : Tcb) × (tcp_rx (main_connects self block others).0 s
        ≡ ok (record { tcbs = t ∷ others; sent = []; woken = tcp_waitq ∷ [] }))
      × (tcp_connect_waits t.state ≡ false)
      × (tcp_connect_end t (t ∷ others) ≡ (none, others))
      × (main_sends (tcp_connect_end t (t ∷ others)).0 ≡ fault)
unfolding main_connects main_sends tcp_connect_start tcp_connect_waits tcp_connect_keeps
    tcp_connect_end unlisted
main-refused self block others s mine refused =
    let t = calling self block 5757 0xc0a80476 in
    let u : Tcb = record t { timeout = 0; decrement_timeout = false; state = closed } in
    (
      u,
      unfold finish matches in
          tcp_rx-first s t others (stays u false []) (find_tcb-first s t others mine)
            (unfold guarded switch on_syn_sent in rw refused refl),
      refl,
      rw (==_refl self) refl,
      refl,
    )
