-- ===== src/Cbuf/Push.antt =====
-- circular_buf_push on a well-formed buffer: a bounded queue of bytes takes bytes in.
use native.Mathlib.Nat.{mod-lt, mod-add-mod, mod-eq_of_lt, mod-eq-sub-mod, add-zero}
use native.Mathlib.Decide.{dec_lt}
use lpc17xx_network.Base.{
  ℕ, zero, suc, ◌+◌, ◌-◌, ◌%◌, ◌≤◌, ◌<◌, ◌≡◌, refl, sym, ◌∙◌, ap, ap₂, ◌≢◌, arith, List, [], ◌∷◌,
  ◌++◌, append-nil, append_assoc, lt→ltb, ge→ltb, get_or, set, length, take, length-set,
  get_or-set_self, get_or-set_ne, sub32,
}
use lpc17xx_network.Cbuf.{CircularBuf, advance, push_loop, circular_buf_push}
use lpc17xx_network.Cbuf.Inv.{IsValid, window, bytes, advance-lt, advance-mod, step_around}

-- What the loop of a push reads.
reads : List ℕ → ℕ → ℕ → List ℕ
reads src i zero = []
reads src i (suc n) = get_or src i 0 ∷ reads src (suc i) n

reads-cons : (x : ℕ) (xs : List ℕ) (i n : ℕ) → reads (x ∷ xs) (suc i) n ≡ reads xs i n
unfolding reads
reads-cons x xs i zero = refl
reads-cons x xs i (suc n) = ap (λ l. get_or xs i 0 ∷ l) (reads-cons x xs (suc i) n)

reads-take : (n : ℕ) (src : List ℕ) → n ≤ length src → reads src 0 n ≡ take n src
unfolding reads
reads-take zero src h = refl
reads-take (suc n) [] h = absurd (omega arith)
reads-take (suc n) (x ∷ xs) h =
    ap (λ l. x ∷ l) (reads-cons x xs 0 n ∙ reads-take n xs (omega arith))

-- Fewer than `sz` steps round the block do not come back to the start.
around-ne : (sz p k : ℕ) → p < sz → suc k < sz → p ≢ (p + suc k) % sz
around-ne sz p k hp hk = elim (dec_lt (p + suc k) sz) [
  | yes h ↦ omega (arith, mod-eq_of_lt h)
  | no h ↦ omega (
    arith,
    mod-eq-sub-mod {n = p + suc k} {m = sz} (omega arith),
    mod-eq_of_lt {n = p + suc k - sz} {m = sz} (omega arith),
  )
]

-- A byte stored just past a window extends the window.
window-set :
    (sz x n : ℕ) (buf : List ℕ) (p h : ℕ)
    → length buf ≡ sz
    → p < sz
    → n < sz
    → h ≡ (p + n) % sz
    → window (set buf h x) sz p (suc n) ≡ window buf sz p n ++ (x ∷ [])
window-set sz x zero buf p h e hp hn at =
    rw (at, add-zero, mod-eq_of_lt hp, get_or-set_self buf p x 0 (omega arith))
window-set sz x (suc n) buf p h e hp hn at =
    ap₂ ◌∷◌ (get_or-set_ne buf x 0 (λ same. around-ne sz p n hp hn (sym same ∙ at))) (
      window-set sz x n buf (advance sz p) h e (advance-lt sz p hp) (omega arith)
        (at ∙ step_around sz p n hp))

-- The head after one more byte.
head_moves : (sz p u h : ℕ) → p < sz → h ≡ (p + u) % sz → advance sz h ≡ (p + suc u) % sz
head_moves sz p u h hp at =
    advance-mod sz h (rw at (mod-lt (p + u) (omega arith)))
    ∙ ap (λ k. (k + 1) % sz) at
    ∙ rw mod-add-mod (ap (λ k. k % sz) (omega arith))

-- What `n` rounds of a push do to a buffer with `u` bytes in use.
record Pushed (c : CircularBuf) (u n : ℕ) (new : List ℕ) (r : CircularBuf) : Type 0 where
  tail_same : r.tail ≡ c.tail
  size_same : r.buf_sz ≡ c.buf_sz
  free_same : r.free_space ≡ c.free_space
  sized : length r.buffer ≡ c.buf_sz
  head_at : r.head ≡ (c.tail + (u + n)) % c.buf_sz
  held : window r.buffer c.buf_sz c.tail (u + n) ≡ window c.buffer c.buf_sz c.tail u ++ new

push_loop-Pushed :
    (n i : ℕ) (src : List ℕ) (c : CircularBuf) (u : ℕ)
    → length c.buffer ≡ c.buf_sz
    → c.tail < c.buf_sz
    → c.head ≡ (c.tail + u) % c.buf_sz
    → u + n ≤ c.buf_sz
    → Pushed c u n (reads src i n) (push_loop n i src c)
unfolding push_loop reads
push_loop-Pushed zero i src c u e ht at room = record {
  tail_same = refl;
  size_same = refl;
  free_same = refl;
  sized = e;
  head_at = rw add-zero at;
  held = rw (add-zero, append-nil);
}
push_loop-Pushed (suc n) i src c u e ht at room =
    let x : ℕ = get_or src i 0 in
    let c' = record c { buffer = set c.buffer c.head x; head = advance c.buf_sz c.head } in
    let rest =
      push_loop-Pushed n (suc i) src c' (suc u) (length-set c.buffer c.head x ∙ e) ht
        (head_moves c.buf_sz c.tail u c.head ht at) (omega arith) in
    record {
      tail_same = rest.tail_same;
      size_same = rest.size_same;
      free_same = rest.free_same;
      sized = rest.sized;
      head_at = rest.head_at ∙ ap (λ k. (c.tail + k) % c.buf_sz) (omega arith);
      held =
          ap (window _ c.buf_sz c.tail) (omega arith)
          ∙ rest.held
          ∙ ap (λ l. l ++ reads src (suc i) n)
              (window-set c.buf_sz x u c.buffer c.tail c.head e ht (omega arith) at)
          ∙ append_assoc (window c.buffer c.buf_sz c.tail u) (x ∷ []) (reads src (suc i) n);
    }

-- The end of a push: the new bytes are taken off the free space.
close : ℕ → CircularBuf → CircularBuf
close len r = record r { free_space = sub32 r.free_space len }

close-IsValid :
    {c r : CircularBuf} {new : List ℕ} (len : ℕ)
    → IsValid c
    → len ≤ c.free_space
    → Pushed c (c.buf_sz - c.free_space) len new r
    → IsValid (close len r)
      × (bytes (close len r) ≡ bytes c ++ new)
      × ((close len r).free_space ≡ c.free_space - len)
unfolding close
close-IsValid {c} {r} {new} len v fits p =
    let left : sub32 r.free_space len ≡ c.free_space - len = omega (arith, p.free_same) in
    let used : c.buf_sz - (c.free_space - len) ≡ c.buf_sz - c.free_space + len = omega arith in
    let shape : window r.buffer r.buf_sz r.tail (r.buf_sz - sub32 r.free_space len)
        ≡ window r.buffer c.buf_sz c.tail (c.buf_sz - c.free_space + len) =
      rw (left, p.size_same, p.tail_same, used) in
    (
      record {
        sized = p.sized ∙ sym p.size_same;
        nonempty = omega (arith, p.size_same);
        small = omega (arith, p.size_same);
        free_in = omega (arith, p.size_same);
        tail_in = omega (arith, p.size_same, p.tail_same);
        head_at = rw (left, p.size_same, p.tail_same, used) p.head_at;
      },
      shape ∙ p.held,
      left,
    )

-- On a well-formed buffer with room for `len` bytes, circular_buf_push of at least `len` bytes of
-- memory leaves a well-formed buffer that holds what it held followed by the first `len` bytes,
-- with `len` bytes less of free space, also when the write runs over the end of the block.
pub circular_buf_push-append :
    {c : CircularBuf} (src : List ℕ) (len : ℕ)
    → IsValid c
    → len ≤ c.free_space
    → len ≤ length src
    → IsValid (circular_buf_push c src len)
      × (bytes (circular_buf_push c src len) ≡ bytes c ++ take len src)
      × ((circular_buf_push c src len).free_space ≡ c.free_space - len)
unfolding circular_buf_push close
circular_buf_push-append {c} src len v fits long =
    rw (ge→ltb c.free_space len fits, ← reads-take len src long)
      (close-IsValid len v fits (
        push_loop-Pushed len 0 src c (c.buf_sz - c.free_space) v.sized v.tail_in v.head_at
          (omega arith)))

-- A push that does not fit changes nothing.
pub circular_buf_push-full :
    (c : CircularBuf) (src : List ℕ) (len : ℕ)
    → c.free_space < len
    → circular_buf_push c src len ≡ c
unfolding circular_buf_push
circular_buf_push-full c src len h = rw (lt→ltb c.free_space len h)
