-- ===== src/Tcp/Transmit/Verify.antt =====
-- The checksum of the segments that tcp_tx sends.
use lpc17xx_network.Base.{
  ℕ, zero, suc, ◌+◌, ◌%◌, ◌^◌, ◌<◌, ◌≤◌, ◌≡◌, ◌∙◌, ap, arith, List, [], ◌∷◌, ◌++◌, length, take,
  replicate, length-append, length-take, length-replicate, Bool, true, false,
}
use lpc17xx_network.Base.Wire.{AllBelow, bit, words_of_bytes, words_of_bytes-append}
use lpc17xx_network.ByteSwap.{swap_endian16}
use lpc17xx_network.ByteSwap.Laws.{swap_endian16-bytes, swap_endian16-lt, swap_endian32-lt}
use lpc17xx_network.Checksum.{fold, checksum}
use lpc17xx_network.Checksum.Verify.{total, checksum-fold, checksum-lt}
use lpc17xx_network.Ethernet.{our_ip_address}
use lpc17xx_network.Tcp.{TcpHeader, TcpTx, tcp_swap_endian}
use lpc17xx_network.Tcp.Transmit.{
  tcp_flags, tcp_words, TcpPseudo, pseudo_words, checksum_buffer, tcp_compute_checksum,
  tcp_swap_pseudo_endian, new_pseudo, sent_header,
}

-- Every field is within its width.
pub record IsHeader (h : TcpHeader) : Type 0 where
  pub source_port_lt : h.source_port < 2 ^ 16
  pub dest_port_lt : h.dest_port < 2 ^ 16
  pub seq_n_lt : h.seq_n < 2 ^ 32
  pub ack_n_lt : h.ack_n < 2 ^ 32
  pub reserved_0_lt : h.reserved_0 < 16
  pub data_offset_lt : h.data_offset < 16
  pub window_sz_lt : h.window_sz < 2 ^ 16
  pub checksum_lt : h.checksum < 2 ^ 16
  pub urg_ptr_lt : h.urg_ptr < 2 ^ 16

pub record IsPseudo (p : TcpPseudo) : Type 0 where
  pub src_lt : p.src < 2 ^ 32
  pub dst_lt : p.dst < 2 ^ 32
  pub proto_lt : p.proto < 256
  pub length_lt : p.length < 2 ^ 16

pub bit_lt : (b : Bool) → bit b < 2
bit_lt true = omega arith
bit_lt false = omega arith

pub tcp_flags-lt : (h : TcpHeader) → tcp_flags h < 256
unfolding tcp_flags
tcp_flags-lt h = omega (
  arith,
  bit_lt h.fin,
  bit_lt h.syn,
  bit_lt h.rst,
  bit_lt h.psh,
  bit_lt h.ack,
  bit_lt h.urg,
  bit_lt h.ece,
  bit_lt h.cwr,
)

tcp_words-AllBelow : (h : TcpHeader) → IsHeader h → AllBelow (2 ^ 16) (tcp_words h)
unfolding tcp_words
tcp_words-AllBelow h v = omega (arith, tcp_flags-lt h)

pseudo_words-AllBelow : (p : TcpPseudo) → IsPseudo p → AllBelow (2 ^ 16) (pseudo_words p)
unfolding pseudo_words
pseudo_words-AllBelow p v = omega arith

AllBelow-append : (n : ℕ) (xs ys : List ℕ) → AllBelow n xs → AllBelow n ys → AllBelow n (xs ++ ys)
AllBelow-append n [] ys h k = k
AllBelow-append n (x ∷ xs) ys (h, t) k = (h, AllBelow-append n xs ys t k)

AllBelow-take : (n m : ℕ) (xs : List ℕ) → AllBelow n xs → AllBelow n (take m xs)
AllBelow-take n zero xs h = tt
AllBelow-take n (suc m) [] h = tt
AllBelow-take n (suc m) (x ∷ xs) (h, t) = (h, AllBelow-take n m xs t)

AllBelow-replicate : (n m : ℕ) → 0 < n → AllBelow n (replicate m 0)
AllBelow-replicate n zero h = tt
AllBelow-replicate n (suc m) h = (h, AllBelow-replicate n m h)

words_of_bytes-AllBelow : (bs : List ℕ) → AllBelow 256 bs → AllBelow (2 ^ 16) (words_of_bytes bs)
words_of_bytes-AllBelow [] h = tt
words_of_bytes-AllBelow (a ∷ []) h = tt
words_of_bytes-AllBelow (a ∷ b ∷ bs) (h, (k, t)) = (omega arith, words_of_bytes-AllBelow bs t)

length-words_of_bytes :
    (bs : List ℕ) → length (words_of_bytes bs) + length (words_of_bytes bs) ≤ length bs
length-words_of_bytes [] = omega arith
length-words_of_bytes (a ∷ []) = omega arith
length-words_of_bytes (a ∷ b ∷ bs) = omega (arith, length-words_of_bytes bs)

-- The words that the checksum is computed over.
abbrev pub segment_words : TcpHeader → TcpPseudo → List ℕ → ℕ → List ℕ
segment_words header pheader payload payload_len =
    words_of_bytes (checksum_buffer header pheader payload payload_len)

-- The payload as it is summed.
abbrev padded : List ℕ → ℕ → List ℕ
padded payload payload_len = take payload_len payload ++ replicate (payload_len % 2) 0

segment_words-parts :
    (h : TcpHeader) (p : TcpPseudo) (payload : List ℕ) (payload_len : ℕ)
    → IsHeader h
    → IsPseudo p
    → segment_words h p payload payload_len
      ≡ pseudo_words p ++ (tcp_words h ++ words_of_bytes (padded payload payload_len))
unfolding checksum_buffer
segment_words-parts h p payload payload_len v w =
    words_of_bytes-append (pseudo_words p) _ (pseudo_words-AllBelow p w)
    ∙ ap (λ ws. pseudo_words p ++ ws)
        (words_of_bytes-append (tcp_words h) _ (tcp_words-AllBelow h v))

segment_words-AllBelow :
    (h : TcpHeader) (p : TcpPseudo) (payload : List ℕ) (payload_len : ℕ)
    → IsHeader h
    → IsPseudo p
    → AllBelow 256 payload
    → AllBelow
        (2 ^ 16)
        (pseudo_words p ++ (tcp_words h ++ words_of_bytes (padded payload payload_len)))
segment_words-AllBelow h p payload payload_len v w b =
    AllBelow-append _ (pseudo_words p) _ (pseudo_words-AllBelow p w) (
      AllBelow-append _ (tcp_words h) _ (tcp_words-AllBelow h v) (
        words_of_bytes-AllBelow _ (
          AllBelow-append 256 (take payload_len payload) _ (AllBelow-take 256 payload_len payload b)
            (AllBelow-replicate 256 (payload_len % 2) (omega arith)))))

segment_words-length :
    (h : TcpHeader) (p : TcpPseudo) (payload : List ℕ) (payload_len : ℕ)
    → payload_len < 2 ^ 16
    → length (pseudo_words p ++ (tcp_words h ++ words_of_bytes (padded payload payload_len)))
      < 2 ^ 16
unfolding pseudo_words tcp_words
segment_words-length h p payload payload_len small = omega (
  arith,
  length-words_of_bytes (padded payload payload_len),
  length-append (take payload_len payload) (replicate (payload_len % 2) 0),
  length-take payload_len payload,
  length-replicate {A = ℕ} (payload_len % 2) 0,
)

total-checksum :
    (h : TcpHeader) (p : TcpPseudo) (rest : List ℕ) (c : ℕ)
    → h.checksum ≡ 0
    → total (pseudo_words p ++ (tcp_words (record h { checksum = c }) ++ rest))
      ≡ total (pseudo_words p ++ (tcp_words h ++ rest)) + c
unfolding total pseudo_words tcp_words tcp_flags
total-checksum h p rest c cleared = omega arith

pub with_checksum :
    (h : TcpHeader) (c : ℕ) → IsHeader h → c < 2 ^ 16 → IsHeader (record h { checksum = c })
with_checksum h c v lt = ground arith

-- A header with a zero checksum field.
pub tcp_compute_checksum-fold :
    (h : TcpHeader) (p : TcpPseudo) (payload : List ℕ) (payload_len : ℕ)
    → IsHeader h
    → IsPseudo p
    → AllBelow 256 payload
    → payload_len < 2 ^ 16
    → h.checksum ≡ 0
    → fold
        (total (segment_words (tcp_compute_checksum h p payload payload_len) p payload payload_len))
      ≡ 0xffff
unfolding tcp_compute_checksum
tcp_compute_checksum-fold h p payload payload_len v w b small cleared =
    let c = checksum (segment_words h p payload payload_len) in
    let parts = segment_words-parts h p payload payload_len v w in
    let rest = words_of_bytes (padded payload payload_len) in
    ap (λ ws. fold (total ws))
      (segment_words-parts (record h { checksum = c }) p payload payload_len
        (with_checksum h c v (checksum-lt _)) w)
    ∙ ap fold (total-checksum h p rest c cleared)
    ∙ ap (λ ws. fold (total (pseudo_words p ++ (tcp_words h ++ rest)) + checksum ws)) parts
    ∙ checksum-fold (pseudo_words p ++ (tcp_words h ++ rest))
        (segment_words-AllBelow h p payload payload_len v w b)
        (segment_words-length h p payload payload_len small)

pub tcp_swap_endian-IsHeader : (h : TcpHeader) → IsHeader h → IsHeader (tcp_swap_endian h)
unfolding tcp_swap_endian
tcp_swap_endian-IsHeader h v = ground (
  arith,
  swap_endian16-lt h.source_port,
  swap_endian16-lt h.dest_port,
  swap_endian32-lt h.seq_n v.seq_n_lt,
  swap_endian32-lt h.ack_n v.ack_n_lt,
  swap_endian16-lt h.window_sz,
  swap_endian16-lt h.checksum,
  swap_endian16-lt h.urg_ptr,
)

tcp_swap_pseudo_endian-IsPseudo :
    (tx : TcpTx) → tx.dest_ip < 2 ^ 32 → IsPseudo (tcp_swap_pseudo_endian (new_pseudo tx))
unfolding tcp_swap_pseudo_endian new_pseudo
tcp_swap_pseudo_endian-IsPseudo tx d = record {
  src_lt = swap_endian32-lt our_ip_address (omega arith);
  dst_lt = swap_endian32-lt tx.dest_ip d;
  proto_lt = omega arith;
  length_lt = swap_endian16-lt _;
}

zero_swapped : (h : TcpHeader) → h.checksum ≡ 0 → (tcp_swap_endian h).checksum ≡ 0
unfolding tcp_swap_endian
zero_swapped h e = ap swap_endian16 e ∙ swap_endian16-bytes 0 0 (omega arith) (omega arith)

-- For a segment whose header fields are within their widths, with a zero checksum field, a
-- payload of bytes and fewer than 2^16 of them, the words of the pseudo header, of the header
-- that tcp_tx sends and of the padded payload sum up, folded, to 0xffff, which is what a receiver
-- checks.
pub sent_header-fold :
    (tx : TcpTx)
    → IsHeader tx.header
    → tx.header.checksum ≡ 0
    → tx.dest_ip < 2 ^ 32
    → AllBelow 256 tx.payload
    → tx.payload_len < 2 ^ 16
    → fold (
        total (
          segment_words
            (sent_header tx)
            (tcp_swap_pseudo_endian (new_pseudo tx))
            tx.payload
            tx.payload_len))
      ≡ 0xffff
unfolding sent_header
sent_header-fold tx v cleared d b small =
    tcp_compute_checksum-fold (tcp_swap_endian tx.header) (tcp_swap_pseudo_endian (new_pseudo tx))
      tx.payload tx.payload_len (tcp_swap_endian-IsHeader tx.header v)
      (tcp_swap_pseudo_endian-IsPseudo tx d) b small (zero_swapped tx.header cleared)
