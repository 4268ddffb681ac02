-- ===== src/ByteSwap/Laws.antt =====
-- The byte swaps of byteswap.c, byte by byte.
use lpc17xx_network.Base.{
  ℕ, ◌+◌, ◌*◌, ◌/◌, ◌%◌, ◌^◌, ◌<◌, ◌≡◌, ◌-◌, ◌∙◌, sym, ap, arith, bit_and, bit_or,
}
use lpc17xx_network.Base.Bits.{bit_or_disjoint, bit_and_field}
use lpc17xx_network.ByteSwap.{swap_endian16, swap_endian32}

-- A 16-bit word of bytes `hi`, `lo` becomes the word of bytes `lo`, `hi`.
pub swap_endian16-bytes :
    (hi lo : ℕ) → hi < 256 → lo < 256 → swap_endian16 (hi * 256 + lo) ≡ lo * 256 + hi
unfolding swap_endian16
swap_endian16-bytes hi lo h l =
    omega (arith, bit_or_disjoint 8 (hi * 256 + lo) ((hi * 256 + lo) / 2 ^ 8) (omega arith))

-- A field of eight bits under its mask, in a word given by an equation.
masked :
    (s x p q r : ℕ)
    → x ≡ (p * 2 ^ 8 + q) * 2 ^ s + r
    → q < 2 ^ 8
    → r < 2 ^ s
    → bit_and x ((2 ^ 8 - 1) * 2 ^ s) ≡ q * 2 ^ s
masked s x p q r e hq hr = rw e (bit_and_field s 8 p q r hq hr)

joined : (k x q r : ℕ) → x ≡ q * 2 ^ k → r < 2 ^ k → bit_or x r ≡ q * 2 ^ k + r
joined k x q r e h = rw e (bit_or_disjoint k q r h)

-- swap_endian32 of a word of four bytes is the word of those bytes in the reverse order.
pub swap_endian32-bytes :
    (a b c d : ℕ)
    → a < 256
    → b < 256
    → c < 256
    → d < 256
    → swap_endian32 (a * 2 ^ 24 + b * 2 ^ 16 + c * 2 ^ 8 + d)
      ≡ d * 2 ^ 24 + c * 2 ^ 16 + b * 2 ^ 8 + a
unfolding swap_endian32
swap_endian32-bytes a b c d ha hb hc hd =
    let x : ℕ = a * 2 ^ 24 + b * 2 ^ 16 + c * 2 ^ 8 + d in
    let top : x * 2 ^ 24 % 2 ^ 32 ≡ d * 2 ^ 24 = omega arith in
    let low : x / 2 ^ 24 ≡ a = omega arith in
    let second : bit_and (x * 2 ^ 8 % 2 ^ 32) 0x00ff0000 ≡ c * 2 ^ 16 =
      masked 16 (x * 2 ^ 8 % 2 ^ 32) b c (d * 256) (omega arith) hc (omega arith) in
    let third : bit_and (x / 2 ^ 8) 0x0000ff00 ≡ b * 2 ^ 8 =
      masked 8 (x / 2 ^ 8) a b c (omega arith) hb hc in
    rw (top, second, third, low)
      (rw (bit_or_disjoint 24 d (c * 2 ^ 16) (omega arith)) (
        rw
          (joined 16 (d * 2 ^ 24 + c * 2 ^ 16) (d * 256 + c) (b * 2 ^ 8) (omega arith)
            (omega arith))
          (joined 8 ((d * 256 + c) * 2 ^ 16 + b * 2 ^ 8) ((d * 256 + c) * 256 + b) a (omega arith)
              ha
            ∙ omega arith)))

-- Swapping twice gives the word back.
pub swap_endian16-swap_endian16 : (v : ℕ) → v < 2 ^ 16 → swap_endian16 (swap_endian16 v) ≡ v
swap_endian16-swap_endian16 v h =
    let parts : v ≡ v / 256 * 256 + v % 256 = omega arith in
    ap (λ w. swap_endian16 (swap_endian16 w)) parts
    ∙ ap swap_endian16 (swap_endian16-bytes (v / 256) (v % 256) (omega arith) (omega arith))
    ∙ swap_endian16-bytes (v % 256) (v / 256) (omega arith) (omega arith)
    ∙ sym parts

pub swap_endian32-swap_endian32 : (v : ℕ) → v < 2 ^ 32 → swap_endian32 (swap_endian32 v) ≡ v
swap_endian32-swap_endian32 v h =
    let a : ℕ = v / 2 ^ 24 in
    let b : ℕ = v / 2 ^ 16 % 256 in
    let c : ℕ = v / 2 ^ 8 % 256 in
    let d : ℕ = v % 256 in
    let parts : v ≡ a * 2 ^ 24 + b * 2 ^ 16 + c * 2 ^ 8 + d = omega arith in
    ap (λ w. swap_endian32 (swap_endian32 w)) parts
    ∙ ap swap_endian32
        (swap_endian32-bytes a b c d (omega arith) (omega arith) (omega arith) (omega arith))
    ∙ swap_endian32-bytes d c b a (omega arith) (omega arith) (omega arith) (omega arith)
    ∙ sym parts

pub swap_endian16-lt : (v : ℕ) → swap_endian16 v < 2 ^ 16
unfolding swap_endian16
swap_endian16-lt v = omega arith

pub swap_endian32-lt : (v : ℕ) → v < 2 ^ 32 → swap_endian32 v < 2 ^ 32
swap_endian32-lt v h =
    let a : ℕ = v / 2 ^ 24 in
    let b : ℕ = v / 2 ^ 16 % 256 in
    let c : ℕ = v / 2 ^ 8 % 256 in
    let d : ℕ = v % 256 in
    let parts : v ≡ a * 2 ^ 24 + b * 2 ^ 16 + c * 2 ^ 8 + d = omega arith in
    let swapped =
      swap_endian32-bytes a b c d (omega arith) (omega arith) (omega arith) (omega arith) in
    let same : swap_endian32 v ≡ d * 2 ^ 24 + c * 2 ^ 16 + b * 2 ^ 8 + a =
      ap swap_endian32 parts ∙ swapped in
    omega arith
