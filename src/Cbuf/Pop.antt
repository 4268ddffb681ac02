-- ===== src/Cbuf/Pop.antt =====
-- circular_buf_pop on a well-formed buffer: the queue gives its oldest bytes back.
use lpc17xx_network.Base.{
  ℕ, zero, suc, ◌+◌, ◌-◌, ◌%◌, ◌≤◌, ◌<◌, ◌≡◌, refl, ◌∙◌, ap, arith, List, [], ◌∷◌, ◌++◌, lt→ltb,
  ge→ltb, get_or, length, add32, sub32,
}
use lpc17xx_network.Cbuf.{CircularBuf, advance, pop_loop, circular_buf_pop}
use lpc17xx_network.Cbuf.Inv.{IsValid, window, bytes, advance-lt, step_around, length-window}

-- What `n` rounds of a pop read and leave, where `m` bytes stay.
record Popped (c : CircularBuf) (u n m : ℕ) (r : List ℕ × CircularBuf) : Type 0 where
  buffer_same : r.1.buffer ≡ c.buffer
  size_same : r.1.buf_sz ≡ c.buf_sz
  free_same : r.1.free_space ≡ c.free_space
  head_same : r.1.head ≡ c.head
  tail_in : r.1.tail < c.buf_sz
  tail_at : (c.tail + u) % c.buf_sz ≡ (r.1.tail + m) % c.buf_sz
  count : length r.0 ≡ n
  held : r.0 ++ window c.buffer c.buf_sz r.1.tail m ≡ window c.buffer c.buf_sz c.tail u

pop_loop-Popped :
    (n u m : ℕ) (c : CircularBuf) → c.tail < c.buf_sz → u ≡ n + m → Popped c u n m (pop_loop n c)
unfolding pop_loop
pop_loop-Popped zero u m c h e =
    let same : u ≡ m = omega arith in
    record {
      buffer_same = refl;
      size_same = refl;
      free_same = refl;
      head_same = refl;
      tail_in = h;
      tail_at = rw same;
      count = refl;
      held = rw same;
    }
pop_loop-Popped (suc n) zero m c h e = absurd (omega arith)
pop_loop-Popped (suc n) (suc u) m c h e =
    let next = record c { tail = advance c.buf_sz c.tail } in
    let rest = pop_loop-Popped n u m next (advance-lt c.buf_sz c.tail h) (omega arith) in
    record {
      buffer_same = rest.buffer_same;
      size_same = rest.size_same;
      free_same = rest.free_same;
      head_same = rest.head_same;
      tail_in = rest.tail_in;
      tail_at = step_around c.buf_sz c.tail u h ∙ rest.tail_at;
      count = ap suc rest.count;
      held = ap (λ l. get_or c.buffer c.tail 0 ∷ l) rest.held;
    }

reopen : ℕ → List ℕ × CircularBuf → List ℕ × CircularBuf
reopen len r = (r.0, record (r.1) { free_space = add32 r.1.free_space len })

reopen-IsValid :
    {c : CircularBuf} {r : List ℕ × CircularBuf} (len : ℕ)
    → IsValid c
    → len ≤ c.buf_sz - c.free_space
    → Popped c (c.buf_sz - c.free_space) len (c.buf_sz - c.free_space - len) r
    → IsValid (reopen len r).1
      × ((reopen len r).0 ++ bytes (reopen len r).1 ≡ bytes c)
      × (length (reopen len r).0 ≡ len)
      × ((reopen len r).1.free_space ≡ c.free_space + len)
unfolding reopen
reopen-IsValid {c} {r} len v fits p =
    let now : add32 r.1.free_space len ≡ c.free_space + len =
      omega (arith, p.free_same, v.small, v.free_in) in
    let used : c.buf_sz - (c.free_space + len) ≡ c.buf_sz - c.free_space - len = omega arith in
    let shape : window r.1.buffer r.1.buf_sz r.1.tail (r.1.buf_sz - add32 r.1.free_space len)
        ≡ window c.buffer c.buf_sz r.1.tail (c.buf_sz - c.free_space - len) =
      rw (now, p.size_same, p.buffer_same, used) in
    (
      record {
        sized = rw (p.buffer_same, p.size_same) v.sized;
        nonempty = omega (arith, p.size_same);
        small = omega (arith, p.size_same);
        free_in = omega (arith, p.size_same);
        tail_in = omega (arith, p.size_same, p.tail_in);
        head_at = rw (now, p.size_same, used, p.head_same) (v.head_at ∙ p.tail_at);
      },
      ap (λ l. r.0 ++ l) shape ∙ p.held,
      p.count,
      now,
    )

-- On a well-formed buffer that holds at least `len` bytes, circular_buf_pop returns the `len`
-- oldest bytes in order and leaves a well-formed buffer that holds the others, with `len` bytes
-- more of free space.
pub circular_buf_pop-append :
    {c : CircularBuf} (len : ℕ)
    → IsValid c
    → len ≤ length (bytes c)
    → let (dst, c') = circular_buf_pop c len in
      IsValid c'
      × (dst ++ bytes c' ≡ bytes c)
      × (length dst ≡ len)
      × (c'.free_space ≡ c.free_space + len)
unfolding circular_buf_pop reopen
circular_buf_pop-append {c} len v fits =
    let used : length (bytes c) ≡ c.buf_sz - c.free_space =
      length-window c.buffer c.buf_sz c.tail (c.buf_sz - c.free_space) in
    rw (ge→ltb (sub32 c.buf_sz c.free_space) len (omega arith)) (
      reopen-IsValid len v (omega arith) (
        pop_loop-Popped len (c.buf_sz - c.free_space) (c.buf_sz - c.free_space - len) c v.tail_in
          (omega arith)))

-- A pop of more than is there changes nothing.
pub circular_buf_pop_short :
    {c : CircularBuf} (len : ℕ)
    → IsValid c
    → length (bytes c) < len
    → circular_buf_pop c len ≡ ([], c)
unfolding circular_buf_pop
circular_buf_pop_short {c} len v h = rw (
    lt→ltb (sub32 c.buf_sz c.free_space) len
      (omega (arith, length-window c.buffer c.buf_sz c.tail (c.buf_sz - c.free_space))))
