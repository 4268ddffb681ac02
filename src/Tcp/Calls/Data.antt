-- ===== src/Tcp/Calls/Data.antt =====
-- What tcp_rx_data hands to a program.
use lpc17xx_network.Base.{
  ℕ, ◌-◌, ◌^◌, ◌<◌, ◌≡◌, refl, ◌∙◌, ap, arith, List, ◌++◌, false, none, some, length, min, ltb,
  if◌then◌else◌,
}
use lpc17xx_network.Cbuf.{CircularBuf, circular_buf_cur_usage, circular_buf_pop}
use lpc17xx_network.Cbuf.Inv.{IsValid, bytes, circular_buf_cur_usage-length}
use lpc17xx_network.Cbuf.Pop.{circular_buf_pop-append}
use lpc17xx_network.Tcp.{Tcb, close_wait}
use lpc17xx_network.Tcp.Calls.{is_close_wait, tcp_rx_data_round}

-- The number of bytes that a round takes.
abbrev round_bytes : Tcb → ℕ → ℕ
round_bytes connection len =
    if ltb len (circular_buf_cur_usage connection.rx_buf)
    then len
    else circular_buf_cur_usage connection.rx_buf

round_bytes-min :
    (connection : Tcb) (len : ℕ)
    → IsValid connection.rx_buf
    → round_bytes connection len ≡ min len (length (bytes connection.rx_buf))
round_bytes-min connection len v = ground (arith, circular_buf_cur_usage-length v)

-- Outside CLOSE_WAIT and with a well-formed buffer, a round of tcp_rx_data takes as many of the
-- oldest bytes as are asked for and there, in order, and leaves the others in a well-formed
-- buffer and the rest of the count to take.
pub tcp_rx_data_round-append :
    (connection : Tcb) (len : ℕ)
    → IsValid connection.rx_buf
    → is_close_wait connection.state ≡ false
    → len < 2 ^ 32
    → (dst : List ℕ) × (buf : CircularBuf) × (tcp_rx_data_round connection len
        ≡ some (dst, len - length dst, record connection { rx_buf = buf }))
      × IsValid buf
      × (dst ++ bytes buf ≡ bytes connection.rx_buf)
      × (length dst ≡ min len (length (bytes connection.rx_buf)))
unfolding tcp_rx_data_round
tcp_rx_data_round-append connection len v alive small =
    let n = round_bytes connection len in
    let count = round_bytes-min connection len v in
    let popped = circular_buf_pop connection.rx_buf n in
    let (valid, joined, taken, freed) = circular_buf_pop-append n v (omega arith) in
    (
      popped.0,
      popped.1,
      rw (tcp_rx_data_round, alive)
          (ap (λ (k : ℕ). some (popped.0, k, record connection { rx_buf = popped.1 }))
            (omega arith)),
      valid,
      joined,
      taken ∙ count,
    )

-- After the peer's FIN.
pub tcp_rx_data_round_close_wait :
    (connection : Tcb) (len : ℕ)
    → connection.state ≡ close_wait
    → tcp_rx_data_round connection len ≡ none
unfolding tcp_rx_data_round
tcp_rx_data_round_close_wait connection len e = rw (tcp_rx_data_round, e) refl
