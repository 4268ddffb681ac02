-- ===== src/Checksum/Closed.antt =====
-- The folded sum without the loop.
use lpc17xx_network.Base.{
  ℕ, ◌+◌, ◌-◌, ◌/◌, ◌%◌, ◌^◌, ◌<◌, ◌≡◌, ◌≢◌, sym, ◌∙◌, true, false, arith, inl, inr, ◌==◌, ==_iff,
  Bool-cases, if◌then◌else◌,
}
use lpc17xx_network.Checksum.{fold}
use lpc17xx_network.Checksum.Fold.{fold-Folded}

true_ne_false : true ≢ false
true_ne_false h = cc

-- The number below 2^16 with the same remainder modulo 0xffff, 0 only for 0.
abbrev pub ones_sum : ℕ → ℕ
ones_sum s = if s == 0 then 0 else (s - 1) % 0xffff + 1

-- For every 32-bit sum, the loop that folds the carries in returns 0 for 0, and otherwise the
-- number from 1 to 0xffff with the same remainder modulo 0xffff.
pub fold-ones_sum : (s : ℕ) → s < 2 ^ 32 → fold s ≡ ones_sum s
fold-ones_sum s h =
    let (low, same, less, zero_only) = fold-Folded s h in
    elim (Bool-cases (s == 0)) [
      | inl z ↦ rw z (omega (arith, (==_iff s 0).0 z))
      | inr nz ↦
          rw nz (closed s (fold s) low same (==_false s nz) (λ e. ==_false s nz (zero_only e)))
    ]
  where
    ==_false : (n : ℕ) → (n == 0) ≡ false → n ≢ 0
    ==_false n e z = true_ne_false (sym ((==_iff n 0).1 z) ∙ e)

    closed :
        (n r : ℕ)
        → r / 2 ^ 16 ≡ 0
        → r % 0xffff ≡ n % 0xffff
        → n ≢ 0
        → r ≢ 0
        → r ≡ (n - 1) % 0xffff + 1
    closed n r low same n_pos r_pos = omega arith
