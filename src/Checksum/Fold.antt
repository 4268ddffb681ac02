-- ===== src/Checksum/Fold.antt =====
-- The loop that folds the carries of a checksum in.
use lpc17xx_network.Base.{
  ℕ, suc, ◌+◌, ◌*◌, ◌/◌, ◌%◌, ◌^◌, ◌≤◌, ◌<◌, ◌≡◌, refl, ◌∙◌, ap, arith, inl, inr, bit_and, ◌==◌,
  ==_iff, Bool-cases,
}
use lpc17xx_network.Base.Bits.{bit_and_field}
use lpc17xx_network.Checksum.{fold_loop, fold}

pub bit_and_low16 : (x : ℕ) → bit_and x 0xffff ≡ x % 2 ^ 16
bit_and_low16 x =
    let parts : x ≡ (x / 2 ^ 16 * 2 ^ 16 + x % 2 ^ 16) * 2 ^ 0 + 0 = omega arith in
    ap (λ y. bit_and y 0xffff) parts
    ∙ bit_and_field 0 16 (x / 2 ^ 16) (x % 2 ^ 16) 0 (omega arith) (omega arith)
    ∙ omega arith

-- `r` is what is left of the sum `s` when the loop ends by its test.
abbrev pub Folded : ℕ → ℕ → Type 0
Folded s r = (r / 2 ^ 16 ≡ 0) × (r % 0xffff ≡ s % 0xffff) × (r ≤ s) × (r ≡ 0 → s ≡ 0)

-- One round: the carries are added to the low half.
carry : ℕ → ℕ
carry s = s % 2 ^ 16 + s / 2 ^ 16

carry_back : (s r : ℕ) → Folded (carry s) r → Folded s r
unfolding carry
carry_back s r (a, b, c, d) = (a, omega arith, omega arith, λ z. omega (arith, d z))

round :
    (n s : ℕ)
    → s < 2 ^ 32
    → Folded (carry s) (fold_loop n (carry s))
    → Folded s (fold_loop (suc n) s)
unfolding fold_loop carry
round n s h rest = elim (Bool-cases (s / 2 ^ 16 == 0)) [
  | inl done ↦ rw done ((==_iff (s / 2 ^ 16) 0).0 done, refl, omega arith, λ z. z)
  | inr more ↦ rw (more, next) (carry_back s _ rest)
]
  where
    next : (bit_and s 0xffff + s / 2 ^ 16) % 2 ^ 32 ≡ s % 2 ^ 16 + s / 2 ^ 16
    next = rw bit_and_low16 (omega arith)

last : (n s : ℕ) → s < 2 ^ 16 → Folded s (fold_loop (suc n) s)
unfolding fold_loop
last n s h = rw ((==_iff (s / 2 ^ 16) 0).1 (omega arith)) (omega arith, refl, omega arith, λ z. z)

-- Within three rounds the loop of a 32-bit sum ends by its test, with the same remainder
-- modulo 0xffff, no larger, and with 0 only for a sum of 0.
pub fold-Folded : (s : ℕ) → s < 2 ^ 32 → Folded s (fold s)
unfolding fold carry
fold-Folded s h =
    round 2 s h (round 1 (carry s) (omega arith) (last 0 (carry (carry s)) (omega arith)))

-- Three rounds of the loop that folds a 32-bit sum are enough for it to end by its own test: the
-- result has no carries, the same remainder modulo 0xffff, and is no larger.
pub fold_ends :
    (s : ℕ) → s < 2 ^ 32 → (fold s / 2 ^ 16 ≡ 0) × (fold s % 0xffff ≡ s % 0xffff) × (fold s ≤ s)
fold_ends s h = let (a, b, c, d) = fold-Folded s h in (a, b, c)
