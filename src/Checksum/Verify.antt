-- ===== src/Checksum/Verify.antt =====
-- What a receiver finds that sums the words with the checksum among them.
use lpc17xx_network.Base.{
  ℕ, ◌+◌, ◌-◌, ◌*◌, ◌%◌, ◌^◌, ◌≤◌, ◌<◌, ◌≡◌, ◌∙◌, ◌≢◌, arith, List, [], ◌∷◌, ◌++◌, length,
}
use lpc17xx_network.Base.Wire.{AllBelow}
use lpc17xx_network.Checksum.{sum_loop, fold, checksum}
use lpc17xx_network.Checksum.Fold.{fold-Folded}

unfoldable pub total : List ℕ → ℕ
total [] = 0
total (x ∷ xs) = x + total xs

pub total-append : (xs ys : List ℕ) → total (xs ++ ys) ≡ total xs + total ys
unfolding total
total-append [] ys = omega arith
total-append (x ∷ xs) ys = omega (arith, total-append xs ys)

total-le : (xs : List ℕ) → AllBelow (2 ^ 16) xs → total xs ≤ length xs * 0xffff
unfolding total
total-le [] h = omega arith
total-le (x ∷ xs) (h, t) = omega (arith, total-le xs t)

sum_loop-total : (xs : List ℕ) (s : ℕ) → s < 2 ^ 32 → sum_loop xs s ≡ (s + total xs) % 2 ^ 32
unfolding sum_loop total
sum_loop-total [] s h = omega arith
sum_loop-total (x ∷ xs) s h = sum_loop-total xs ((s + x) % 2 ^ 32) (omega arith) ∙ omega arith

-- The checksum fits its field.
pub checksum-lt : (ws : List ℕ) → checksum ws < 2 ^ 16
unfolding checksum
checksum-lt ws = omega arith

-- Fewer than 2^16 words of 16 bits and their checksum sum up, folded, to 0xffff: the 32-bit sum
-- does not overflow, and a receiver's check succeeds.
pub checksum-fold :
    (ws : List ℕ)
    → AllBelow (2 ^ 16) ws
    → length ws < 2 ^ 16
    → fold (total ws + checksum ws) ≡ 0xffff
unfolding checksum
checksum-fold ws h small =
    let bound = total-le ws h in
    let sum : sum_loop ws 0 ≡ total ws = sum_loop-total ws 0 (omega arith) ∙ omega arith in
    rw sum (verify (total ws) (omega arith))
  where
    verify : (s : ℕ) → s ≤ 0xffff * 0xffff → fold (s + (2 ^ 32 - 1 - fold s) % 2 ^ 16) ≡ 0xffff
    verify s le =
        let (a, b, c, d) = fold-Folded s (omega arith) in
        let (e, f, g, h) = fold-Folded (s + (2 ^ 32 - 1 - fold s) % 2 ^ 16) (omega arith) in
        let not_zero : fold (s + (2 ^ 32 - 1 - fold s) % 2 ^ 16) ≢ 0 = λ z. omega (arith, h z) in
        omega arith
