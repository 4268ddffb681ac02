-- ===== src/Tests/Buffers.antt =====
-- The buffers of cbuf.c, udp.c and emac.c at concrete inputs.
use lpc17xx_network.Base.{ℕ, ◌≡◌, refl, arith, List, [], ◌∷◌, ◌++◌, length, take}
use lpc17xx_network.Base.Run.{ok}
use lpc17xx_network.Cbuf.{CircularBuf, circular_buf_push, circular_buf_pop}
use lpc17xx_network.Cbuf.Inv.{IsValid, bytes}
use lpc17xx_network.Cbuf.Push.{circular_buf_push-append}
use lpc17xx_network.Cbuf.Pop.{circular_buf_pop-append}
use lpc17xx_network.Udp.{UdpListener, udp_copy}
use lpc17xx_network.Udp.Laws.{IsListener, received, udp_copy-received}
use lpc17xx_network.Emac.{gather}
use lpc17xx_network.Emac.Gather.{gather_shorter}

-- A buffer of five bytes with two in use, across the end of its block.
abbrev wrapped : CircularBuf
wrapped = record { buffer = 8 ∷ 0 ∷ 0 ∷ 0 ∷ 7 ∷ []; head = 1; tail = 4; buf_sz = 5; free_space = 3 }

wrapped-IsValid : IsValid wrapped
wrapped-IsValid = record {
  sized = refl;
  nonempty = omega arith;
  small = omega arith;
  free_in = omega arith;
  tail_in = omega arith;
  head_at = refl;
}

circular_buf_push-append_example :
    IsValid (circular_buf_push wrapped (1 ∷ 2 ∷ 3 ∷ []) 2)
    × (bytes (circular_buf_push wrapped (1 ∷ 2 ∷ 3 ∷ []) 2) ≡ 7 ∷ 8 ∷ 1 ∷ 2 ∷ [])
    × ((circular_buf_push wrapped (1 ∷ 2 ∷ 3 ∷ []) 2).free_space ≡ 1)
circular_buf_push-append_example =
    circular_buf_push-append (1 ∷ 2 ∷ 3 ∷ []) 2 wrapped-IsValid (omega arith) (omega arith)

circular_buf_pop-append_example :
    let (dst, c') = circular_buf_pop wrapped 2 in
    IsValid c' × (dst ++ bytes c' ≡ 7 ∷ 8 ∷ []) × (length dst ≡ 2) × (c'.free_space ≡ 5)
circular_buf_pop-append_example = circular_buf_pop-append 2 wrapped-IsValid (omega arith)

-- A listener of four bytes that has received two.
abbrev pub listener : UdpListener
listener = record { dst_buf = 1 ∷ 2 ∷ 0 ∷ 0 ∷ []; dst_buf_sz = 4; dst_buf_ptr = 2; port = 53 }

pub listener-IsListener : IsListener listener
listener-IsListener = record { sized = refl; small = omega arith; ptr_in = omega arith }

udp_copy-received_example :
    IsListener (udp_copy listener (5 ∷ 6 ∷ 7 ∷ []) 3)
    × (received (udp_copy listener (5 ∷ 6 ∷ 7 ∷ []) 3) ≡ 1 ∷ 2 ∷ 5 ∷ 6 ∷ [])
udp_copy-received_example =
    udp_copy-received listener (5 ∷ 6 ∷ 7 ∷ []) 3 listener-IsListener (omega arith)

-- The second byte of the frame is lost to the fragment.
gather_shorter_example :
    (frame : List ℕ) × (gather (0 ∷ 0 ∷ 0 ∷ []) (1 ∷ 2 ∷ []) (3 ∷ []) ≡ ok frame)
    × (take 2 frame ≡ 1 ∷ 3 ∷ [])
gather_shorter_example = gather_shorter (0 ∷ 0 ∷ 0 ∷ []) (1 ∷ 2 ∷ []) (3 ∷ []) refl (omega arith)
