-- ===== src/Checksum.antt =====
-- The Internet checksum that ipv4.c and tcp.c compute, each with the same loops: a 32-bit sum of
-- the 16-bit words, the carries folded in, and the complement.
pub mod Fold
pub mod Closed
pub mod Verify
use lpc17xx_network.Base.{
  ℕ, zero, suc, ◌+◌, ◌-◌, ◌/◌, ◌%◌, ◌^◌, List, [], ◌∷◌, bit_and, ◌==◌, if◌then◌else◌,
}

-- `for (...) sum += x[i];` over the words, in uint32_t.
unfoldable pub sum_loop : List ℕ → ℕ → ℕ
sum_loop [] sum = sum
sum_loop (x ∷ xs) sum = sum_loop xs ((sum + x) % 2 ^ 32)

-- `while (sum >> 16) sum = (sum & 0xffff) + (sum >> 16);` with fuel.
unfoldable pub fold_loop : ℕ → ℕ → ℕ
fold_loop zero sum = sum
fold_loop (suc n) sum =
    let rest = fold_loop n ((bit_and sum 0xffff + sum / 2 ^ 16) % 2 ^ 32) in
    if sum / 2 ^ 16 == 0 then sum else rest

-- Three rounds, for the carries of a 32-bit sum.
unfoldable pub fold : ℕ → ℕ
unfolding fold_loop
fold sum = fold_loop 3 sum

-- `~sum`, stored in a field of 16 bits.
unfoldable pub checksum : List ℕ → ℕ
unfolding sum_loop fold
checksum ws = (2 ^ 32 - 1 - fold (sum_loop ws 0)) % 2 ^ 16
