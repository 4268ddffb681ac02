-- ===== src/Main.antt =====
-- The program of main.c: it connects to a host and sends a line of text.
pub mod Delivers
pub mod Refused
use lpc17xx_network.Base.{ℕ, List, [], ◌∷◌, Bool, Option, none, some, length}
use lpc17xx_network.Base.Run.{Run, ok, fault}
use lpc17xx_network.Tcp.{Tcb, TcpTx}
use lpc17xx_network.Tcp.Calls.{tcp_connect_start, tcp_tx_data_start}

-- The string: "Hello, UDP!" and a line feed.
abbrev pub str : List ℕ
str = 72 ∷ 101 ∷ 108 ∷ 108 ∷ 111 ∷ 44 ∷ 32 ∷ 85 ∷ 68 ∷ 80 ∷ 33 ∷ 10 ∷ []

-- The call of tcp_connect up to its wait, at the block and the buffer that get_mem returns.
unfoldable pub main_connects : ℕ → List ℕ → List Tcb → List Tcb × TcpTx
unfolding tcp_connect_start
main_connects self block tcbs = tcp_connect_start self block 5757 0xc0a80476 tcbs

-- The call of tcp_tx_data up to its wait. The result of tcp_connect is not looked at: for NULL the
-- call reads and writes through it.
unfoldable pub main_sends : Option Tcb → Run (Tcb × TcpTx)
unfolding tcp_tx_data_start
main_sends none = fault
main_sends (some tcp_connection) = ok (tcp_tx_data_start tcp_connection str (length str))
