-- ===== src/ByteSwap.antt =====
-- byteswap.c: the two in-place byte swaps, as functions of the value that `val` points to.
pub mod Laws
mod Tests
use lpc17xx_network.Base.{ℕ, ◌*◌, ◌/◌, ◌%◌, ◌^◌, bit_and, bit_or}

-- swap_endian16: the operands are promoted to int, and the result is stored in 16 bits.
pub swap_endian16 : ℕ → ℕ
swap_endian16 val = bit_or (val * 2 ^ 8) (val / 2 ^ 8) % 2 ^ 16

-- swap_endian32: the shifts to the left are taken in uint32_t.
pub swap_endian32 : ℕ → ℕ
swap_endian32 val =
    bit_or
      (bit_or (bit_or (val * 2 ^ 24 % 2 ^ 32) (bit_and (val * 2 ^ 8 % 2 ^ 32) 0x00ff0000))
        (bit_and (val / 2 ^ 8) 0x0000ff00))
      (val / 2 ^ 24)
