-- ===== src/Udp/Laws.antt =====
-- The listeners of udp.c, and what a datagram writes into their buffers.
use lpc17xx_network.Base.{
  ℕ, suc, ◌+◌, ◌-◌, ◌%◌, ◌^◌, ◌≤◌, ◌<◌, ◌≡◌, refl, sym, ◌∙◌, ap, arith, List, [], ◌∷◌, ◌++◌, length,
  take, drop, length-append, length-take, length-drop, min, append_assoc,
}
use lpc17xx_network.Udp.{UdpListener, write_at, bytes_to_copy, udp_copy}

-- A listener's buffer has its stated size, and it is filled up to the pointer.
pub record IsListener (i : UdpListener) : Type 0 where
  pub sized : length i.dst_buf ≡ i.dst_buf_sz
  pub small : i.dst_buf_sz < 2 ^ 16
  pub ptr_in : i.dst_buf_ptr ≤ i.dst_buf_sz

-- What a listener has received so far.
abbrev pub received : UdpListener → List ℕ
received i = take i.dst_buf_ptr i.dst_buf

pub length-write_at :
    (buf : List ℕ) (at : ℕ) (bytes : List ℕ)
    → at + length bytes ≤ length buf
    → length (write_at buf at bytes) ≡ length buf
unfolding write_at
length-write_at buf at bytes h = omega (
  arith,
  length-append (take at buf) (bytes ++ drop (at + length bytes) buf),
  length-append bytes (drop (at + length bytes) buf),
  length-take at buf,
  length-drop (at + length bytes) buf,
)

take-append_left : (n : ℕ) (xs ys : List ℕ) → n ≡ length xs → take n (xs ++ ys) ≡ xs
take-append_left ℕ.zero [] ys e = refl
take-append_left ℕ.zero (x ∷ xs) ys e = absurd (omega arith)
take-append_left (suc n) [] ys e = absurd (omega arith)
take-append_left (suc n) (x ∷ xs) ys e = ap (λ l. x ∷ l) (take-append_left n xs ys (omega arith))

-- A datagram for a well-formed listener, with at least the stated number of bytes in memory, is
-- appended to what the listener received, as far as the rest of its buffer reaches; the buffer
-- keeps its size and the listener stays well-formed.
pub udp_copy-received :
    (i : UdpListener) (payload : List ℕ) (payload_sz : ℕ)
    → IsListener i
    → payload_sz ≤ length payload
    → IsListener (udp_copy i payload payload_sz)
      × (received (udp_copy i payload payload_sz)
          ≡ received i ++ take (min payload_sz (i.dst_buf_sz - i.dst_buf_ptr)) payload)
unfolding udp_copy write_at
udp_copy-received i payload payload_sz v long =
    let n = bytes_to_copy i payload_sz in
    let count : n ≡ min payload_sz (i.dst_buf_sz - i.dst_buf_ptr) =
      unfold bytes_to_copy in ground arith in
    let taken = length-take n payload in
    let moved : (i.dst_buf_ptr + n) % 2 ^ 16 ≡ i.dst_buf_ptr + n =
      omega (arith, v.small, v.ptr_in) in
    let front = take i.dst_buf_ptr i.dst_buf in
    let back = drop (i.dst_buf_ptr + length (take n payload)) i.dst_buf in
    (
      record {
        sized =
            unfold write_at in
            length-write_at i.dst_buf i.dst_buf_ptr (take n payload)
              (omega (arith, v.sized, v.ptr_in))
            ∙ v.sized;
        small = v.small;
        ptr_in = omega (arith, v.ptr_in);
      },
      rw (moved, ← count)
          (ap (take (i.dst_buf_ptr + n)) (sym (append_assoc front (take n payload) back))
            ∙ take-append_left (i.dst_buf_ptr + n) (front ++ take n payload) back (
                omega (
                  arith,
                  length-append front (take n payload),
                  length-take i.dst_buf_ptr i.dst_buf,
                  v.sized,
                  v.ptr_in,
                ))),
    )
