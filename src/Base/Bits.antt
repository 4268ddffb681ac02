-- ===== src/Base/Bits.antt =====
-- Laws of the bit operations at variables, from the digit recursion that defines them.
use Prim.Native.Nat.{
  ℕ, zero, suc, ◌+◌, ◌-◌, ◌*◌, ◌/◌, ◌%◌, ◌^◌, ◌≤◌, ◌<◌, min, max, bit_and, bit_or, digits,
  bit_and-bitwise, bit_or-bitwise,
}
use mathlib.Core.Path.{◌≡◌, refl, ap, ◌∙◌}
use native.Mathlib.Nat.{pow-suc, one-le-pow}
use mathlib.Core.Logic.{inl, inr}
use native.Mathlib.Omega.{arith}
use lpc17xx_network.Base.Tests.{ltb, ltb→lt, ltb→ge, Bool-cases}

module _ (alone : ℕ → ℕ) (join : ℕ → ℕ → ℕ) where
  one_more : (n a b : ℕ) → a ≤ n → digits alone join (suc n) a b ≡ digits alone join n a b
  one_more zero zero b h = refl
  one_more zero (suc a) b h = absurd (omega arith)
  one_more (suc n) zero b h = refl
  one_more (suc n) (suc a) b h = omega (arith, one_more n (suc a / 2) (b / 2) (omega arith))

  -- The recursion needs no more rounds than the number has.
  enough : (n a b : ℕ) → a ≤ n → digits alone join n a b ≡ digits alone join a a b
  enough zero zero b h = refl
  enough zero (suc a) b h = absurd (omega arith)
  enough (suc n) a b h = elim (Bool-cases (ltb n a)) [
    | inl past ↦
        let last : suc n ≡ a = omega (arith, ltb→lt n a past) in
        ap (λ (k : ℕ). digits alone join k a b) last
    | inr below ↦ one_more n a b (ltb→ge n a below) ∙ enough n a b (ltb→ge n a below)
  ]

  lowest :
      ((b : ℕ) → alone b ≡ alone (b / 2) * 2 + join 0 (b % 2))
      → (a b : ℕ)
      → digits alone join a a b
        ≡ digits alone join (a / 2) (a / 2) (b / 2) * 2 + join (a % 2) (b % 2)
  lowest first zero b = first b
  lowest first (suc a) b = omega (arith, enough a (suc a / 2) (b / 2) (omega arith))

-- The lowest digit of `a | b`, and the rest.
bit_or_step : (a b : ℕ) → bit_or a b ≡ bit_or (a / 2) (b / 2) * 2 + max (a % 2) (b % 2)
bit_or_step a b =
    let step = lowest (λ c. c) max (λ c. omega arith) a b in
    omega (arith, step, bit_or-bitwise (a / 2) (b / 2), bit_or-bitwise a b)

-- The lowest digit of `a & b`, and the rest.
bit_and_step : (a b : ℕ) → bit_and a b ≡ bit_and (a / 2) (b / 2) * 2 + min (a % 2) (b % 2)
bit_and_step a b =
    let step = lowest (λ c. 0) min (λ c. omega arith) a b in
    omega (arith, step, bit_and-bitwise (a / 2) (b / 2), bit_and-bitwise a b)

bit_or-zero_below : (n a : ℕ) → a ≤ n → bit_or a 0 ≡ a
bit_or-zero_below n zero h = refl
bit_or-zero_below zero (suc a) h = absurd (omega arith)
bit_or-zero_below (suc n) (suc a) h =
    omega (arith, bit_or_step (suc a) 0, bit_or-zero_below n (suc a / 2) (omega arith))

bit_and-zero_below : (n a : ℕ) → a ≤ n → bit_and a 0 ≡ 0
bit_and-zero_below n zero h = refl
bit_and-zero_below zero (suc a) h = absurd (omega arith)
bit_and-zero_below (suc n) (suc a) h =
    omega (arith, bit_and_step (suc a) 0, bit_and-zero_below n (suc a / 2) (omega arith))

double_field : (q k : ℕ) → q * 2 ^ suc k ≡ 2 * (q * 2 ^ k)
double_field q k = omega (arith, ap (λ (t : ℕ). q * t) (pow-suc 2 k))

-- Two fields that share no bit are joined by a sum.
pub bit_or_disjoint : (k q r : ℕ) → r < 2 ^ k → bit_or (q * 2 ^ k) r ≡ q * 2 ^ k + r
bit_or_disjoint zero q r fits = ground (arith, bit_or-zero_below q q)
bit_or_disjoint (suc k) q r fits = ground (
  arith,
  bit_or_step (q * 2 ^ suc k) r,
  double_field q k,
  pow-suc 2 k,
  bit_or_disjoint k q (r / 2) (omega (arith, pow-suc 2 k)),
)

-- A mask with `s` zeros at its low end leaves the low field out.
bit_and_above :
    (s m q r : ℕ) → r < 2 ^ s → bit_and (q * 2 ^ s + r) (m * 2 ^ s) ≡ bit_and q m * 2 ^ s
bit_and_above zero m q r fits = ground (arith)
bit_and_above (suc s) m q r fits = ground (
  arith,
  bit_and_step (q * 2 ^ suc s + r) (m * 2 ^ suc s),
  double_field q s,
  double_field m s,
  double_field (bit_and q m) s,
  pow-suc 2 s,
  bit_and_above s m q (r / 2) (omega (arith, pow-suc 2 s)),
)

-- A mask of `k` ones keeps the low field.
bit_and_below : (k q r : ℕ) → r < 2 ^ k → bit_and (q * 2 ^ k + r) (2 ^ k - 1) ≡ r
bit_and_below zero q r fits =
    omega (arith, bit_and-zero_below (q * 2 ^ zero + r) (q * 2 ^ zero + r) (omega arith))
bit_and_below (suc k) q r fits = ground (
  arith,
  bit_and_step (q * 2 ^ suc k + r) (2 ^ suc k - 1),
  double_field q k,
  pow-suc 2 k,
  one-le-pow k 2,
  bit_and_below k q (r / 2) (omega (arith, pow-suc 2 k)),
)

-- A mask of `k` ones above `s` zeros picks out the field of `k` bits at `s`.
pub bit_and_field :
    (s k p q r : ℕ)
    → q < 2 ^ k
    → r < 2 ^ s
    → bit_and ((p * 2 ^ k + q) * 2 ^ s + r) ((2 ^ k - 1) * 2 ^ s) ≡ q * 2 ^ s
bit_and_field s k p q r fits low =
    bit_and_above s (2 ^ k - 1) (p * 2 ^ k + q) r low
    ∙ ap (λ (t : ℕ). t * 2 ^ s) (bit_and_below k p q fits)

-- The digit at a place.
abbrev pub bit_at : ℕ → ℕ → ℕ
bit_at zero a = a % 2
bit_at (suc k) a = bit_at k (a / 2)

pub bit_at-bit_or : (k a b : ℕ) → bit_at k (bit_or a b) ≡ max (bit_at k a) (bit_at k b)
bit_at-bit_or zero a b = omega (arith, bit_or_step a b)
bit_at-bit_or (suc k) a b =
    let half : bit_or a b / 2 ≡ bit_or (a / 2) (b / 2) = omega (arith, bit_or_step a b) in
    ap (bit_at k) half ∙ bit_at-bit_or k (a / 2) (b / 2)

pub bit_at-bit_and : (k a b : ℕ) → bit_at k (bit_and a b) ≡ min (bit_at k a) (bit_at k b)
bit_at-bit_and zero a b = omega (arith, bit_and_step a b)
bit_at-bit_and (suc k) a b =
    let half : bit_and a b / 2 ≡ bit_and (a / 2) (b / 2) = omega (arith, bit_and_step a b) in
    ap (bit_at k) half ∙ bit_at-bit_and k (a / 2) (b / 2)

bit_at_le : (k a : ℕ) → bit_at k a ≤ 1
bit_at_le zero a = omega arith
bit_at_le (suc k) a = bit_at_le k (a / 2)

-- A digit that the mask has is set.
pub bit_at_set : (k a mask : ℕ) → bit_at k mask ≡ 1 → bit_at k (bit_or a mask) ≡ 1
bit_at_set k a mask e = omega (arith, bit_at-bit_or k a mask, bit_at_le k a, e)

-- A digit that the mask does not have is left alone.
pub bit_at_kept : (k a mask : ℕ) → bit_at k mask ≡ 0 → bit_at k (bit_or a mask) ≡ bit_at k a
bit_at_kept k a mask e = omega (arith, bit_at-bit_or k a mask, e)

pub bit_at_cleared : (k a mask : ℕ) → bit_at k mask ≡ 0 → bit_at k (bit_and a mask) ≡ 0
bit_at_cleared k a mask e = omega (arith, bit_at-bit_and k a mask, e)

bit_or_comm_below : (n a b : ℕ) → a ≤ n → b ≤ n → bit_or a b ≡ bit_or b a
bit_or_comm_below zero zero zero p q = refl
bit_or_comm_below zero (suc a) b p q = absurd (omega arith)
bit_or_comm_below zero zero (suc b) p q = absurd (omega arith)
bit_or_comm_below (suc n) a b p q = omega (
  arith,
  bit_or_step a b,
  bit_or_step b a,
  bit_or_comm_below n (a / 2) (b / 2) (omega arith) (omega arith),
)

-- A field below a flag.
pub bit_or_above : (k q r : ℕ) → r < 2 ^ k → bit_or r (q * 2 ^ k) ≡ q * 2 ^ k + r
bit_or_above k q r fits =
    bit_or_comm_below (r + q * 2 ^ k) r (q * 2 ^ k) (omega arith) (omega arith)
    ∙ bit_or_disjoint k q r fits
