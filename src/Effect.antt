-- ===== src/Effect.antt =====
-- What a component asks of the others: datagrams for ipv4.c, frames for ethernet.c, and the wait
-- queues whose processes are woken.
use lpc17xx_network.Base.{ℕ, List}

-- The wait queues that the WAITQUEUE lines of the sources declare.
pub data WaitQueue : Type 0 where
  rx_waitq arp_waitqueue udp_waitq tcp_waitq ip4_tx_waitq ether_tx_waitq : WaitQueue

pub data Effect : Type 0 where
  -- ip4_xmit_packet(protocol, dst_ip, payload, payload_len)
  ip4_xmit : ℕ → ℕ → List ℕ → ℕ → Effect
  -- ether_tx(dhost, ether_type, payload, len)
  ether_xmit : List ℕ → ℕ → List ℕ → ℕ → Effect
  -- waitqueue_wakeup(waitq)
  wakeup : WaitQueue → Effect
