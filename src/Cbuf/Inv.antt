-- ===== src/Cbuf/Inv.antt =====
-- The well-formed buffers of cbuf.c, and the bytes that one holds.
use native.Mathlib.Nat.{mod-add-mod}
use lpc17xx_network.Base.{
  ℕ, zero, suc, ◌+◌, ◌-◌, ◌%◌, ◌^◌, ◌≤◌, ◌<◌, ◌≡◌, refl, ap, arith, List, [], ◌∷◌, get_or, length,
}
use lpc17xx_network.Cbuf.{CircularBuf, circular_buf_init, advance, circular_buf_cur_usage}

-- The block has `buf_sz` bytes, and `head` stands as many bytes past `tail` as are in use.
pub record IsValid (c : CircularBuf) : Type 0 where
  pub sized : length c.buffer ≡ c.buf_sz
  pub nonempty : 0 < c.buf_sz
  pub small : c.buf_sz < 2 ^ 31
  pub free_in : c.free_space ≤ c.buf_sz
  pub tail_in : c.tail < c.buf_sz
  pub head_at : c.head ≡ (c.tail + (c.buf_sz - c.free_space)) % c.buf_sz

module _ (buf : List ℕ) (sz : ℕ) where
  -- The `n` bytes from offset `p` on, round the end of the block.
  abbrev pub window : ℕ → ℕ → List ℕ
  window p zero = []
  window p (suc n) = get_or buf p 0 ∷ window (advance sz p) n

-- The bytes in the buffer, oldest first.
abbrev pub bytes : CircularBuf → List ℕ
bytes c = window c.buffer c.buf_sz c.tail (c.buf_sz - c.free_space)

pub length-window : (buf : List ℕ) (sz p n : ℕ) → length (window buf sz p n) ≡ n
length-window buf sz p zero = refl
length-window buf sz p (suc n) = omega (arith, length-window buf sz (advance sz p) n)

pub advance-lt : (sz p : ℕ) → p < sz → advance sz p < sz
advance-lt sz p h = ground arith

pub advance-mod : (sz p : ℕ) → p < sz → advance sz p ≡ (p + 1) % sz
advance-mod sz p h = grind arith

pub step_around : (sz p n : ℕ) → p < sz → (p + suc n) % sz ≡ (advance sz p + n) % sz
step_around sz p n h = rw (advance-mod sz p h) (rw mod-add-mod (ap (λ k. k % sz) (omega arith)))

-- A new buffer is well formed and empty.
pub circular_buf_init-IsValid :
    (block : List ℕ) (capacity : ℕ)
    → length block ≡ capacity
    → 0 < capacity
    → capacity < 2 ^ 31
    → IsValid (circular_buf_init block capacity)
unfolding circular_buf_init
circular_buf_init-IsValid block capacity e pos small = record {
  sized = e;
  nonempty = pos;
  small = small;
  free_in = omega arith;
  tail_in = pos;
  head_at = grind arith;
}

-- In a well-formed buffer the usage is the number of bytes held.
pub circular_buf_cur_usage-length :
    {c : CircularBuf} → IsValid c → circular_buf_cur_usage c ≡ length (bytes c)
unfolding circular_buf_cur_usage
circular_buf_cur_usage-length {c} v =
    omega (arith, length-window c.buffer c.buf_sz c.tail (c.buf_sz - c.free_space))
