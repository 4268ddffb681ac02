-- ===== src/Cbuf.antt =====
-- cbuf.c: the circular byte buffer of a connection. The pointers `head` and `tail` are offsets
-- into the block that `get_mem` returned, which is the list `buffer`.
pub mod Inv
pub mod Push
pub mod Pop
use lpc17xx_network.Base.{
  ℕ, zero, suc, ◌+◌, ◌-◌, ◌≡◌, List, [], ◌∷◌, ltb, ◌==◌, if◌then◌else◌, get_or, set, add32, sub32,
}

pub record CircularBuf : Type 0 where
  pub buffer : List ℕ
  pub head : ℕ
  pub tail : ℕ
  pub buf_sz : ℕ
  pub free_space : ℕ

-- circular_buf_init; `block` is the memory that `get_mem(capacity)` returns.
unfoldable pub circular_buf_init : List ℕ → ℕ → CircularBuf
circular_buf_init block capacity = record {
  buffer = block;
  head = 0;
  tail = 0;
  buf_sz = capacity;
  free_space = capacity;
}

-- circular_buf_free: the pointers become NULL, here the block of no bytes.
unfoldable pub circular_buf_free : CircularBuf → CircularBuf
circular_buf_free cbuf = record cbuf { buffer = []; head = 0; tail = 0; buf_sz = 0 }

unfoldable pub circular_buf_cur_capacity : CircularBuf → ℕ
circular_buf_cur_capacity cbuf = cbuf.free_space

-- The difference is taken in size_t.
unfoldable pub circular_buf_cur_usage : CircularBuf → ℕ
circular_buf_cur_usage cbuf = sub32 cbuf.buf_sz cbuf.free_space

-- A pointer into a block of `buf_sz` bytes, moved on by one and round at the end.
abbrev pub advance : ℕ → ℕ → ℕ
advance buf_sz p = if p + 1 == buf_sz then 0 else p + 1

-- The loop of circular_buf_push, from index `i` on, with `n` rounds left. The memory at `data`
-- is the list `src`; a read past its end gives 0.
unfoldable pub push_loop : ℕ → ℕ → List ℕ → CircularBuf → CircularBuf
push_loop zero i src cbuf = cbuf
push_loop (suc n) i src cbuf = push_loop n (suc i) src (record cbuf {
  buffer = set cbuf.buffer cbuf.head (get_or src i 0);
  head = advance cbuf.buf_sz cbuf.head;
})

unfoldable pub circular_buf_push : CircularBuf → List ℕ → ℕ → CircularBuf
circular_buf_push cbuf src len =
    if ltb cbuf.free_space len
    then cbuf
    else (let pushed = push_loop len 0 src cbuf in
        record pushed { free_space = sub32 pushed.free_space len })

-- The loop of circular_buf_pop: the bytes that it writes to `dst_buf`, and the tail it leaves.
unfoldable pub pop_loop : ℕ → CircularBuf → List ℕ × CircularBuf
pop_loop zero cbuf = ([], cbuf)
pop_loop (suc n) cbuf =
    let byte = get_or cbuf.buffer cbuf.tail 0 in
    let (dst, popped) = pop_loop n (record cbuf { tail = advance cbuf.buf_sz cbuf.tail }) in
    (byte ∷ dst, popped)

unfoldable pub circular_buf_pop : CircularBuf → ℕ → List ℕ × CircularBuf
circular_buf_pop cbuf len =
    if ltb (sub32 cbuf.buf_sz cbuf.free_space) len
    then ([], cbuf)
    else (let (dst, popped) = pop_loop len cbuf in
        (dst, record popped { free_space = add32 popped.free_space len }))
