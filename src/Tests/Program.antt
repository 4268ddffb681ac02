-- ===== src/Tests/Program.antt =====
-- The program of main.c at concrete inputs.
use lpc17xx_network.Base.{◌≡◌, refl, [], ◌∷◌, true, false, none, replicate}
use lpc17xx_network.Base.Run.{ok, fault}
use lpc17xx_network.Effect.{tcp_waitq}
use lpc17xx_network.Tcp.{Tcb, zero_header}
use lpc17xx_network.Tcp.Receive.{Segment, tcp_rx, matches}
use lpc17xx_network.Tcp.Calls.{tcp_connect_waits, tcp_connect_end}
use lpc17xx_network.Main.{main_connects, main_sends}
use lpc17xx_network.Main.Delivers.{listener_ip}
use lpc17xx_network.Main.Refused.{main-refused}

-- The host answers with a reset.
abbrev reset : Segment
reset = record {
  header = record zero_header {
    source_port = 5757;
    dest_port = 65355;
    data_offset = 5;
    rst = true;
    ack = true;
  };
  src_ip = listener_ip;
  body = [];
  data_len = 0;
}

main-refused_example :
    (t : Tcb) × (tcp_rx (main_connects 300 (replicate 127 0) []).0 reset
      ≡ ok (record { tcbs = t ∷ []; sent = []; woken = tcp_waitq ∷ [] }))
    × (tcp_connect_waits t.state ≡ false)
    × (tcp_connect_end t (t ∷ []) ≡ (none, []))
    × (main_sends (tcp_connect_end t (t ∷ [])).0 ≡ fault)
main-refused_example = main-refused 300 (replicate 127 0) [] reset (unfold matches in refl) refl
