-- ===== src/Start/Clock.antt =====
-- init_clocking of init.c: the accesses that it makes to the clock registers, in order. What the
-- hardware answers to each read of a status register is an argument.
pub mod Frequency
use lpc17xx_network.Base.{
  ℕ, zero, suc, ◌+◌, ◌/◌, ◌%◌, ◌^◌, List, [], ◌∷◌, ◌++◌, Bool, true, false, Option, none, some,
  ◌==◌, not, if◌then◌else◌, bit_or,
}

pub data ClockRegister : Type 0 where
  scs : ClockRegister
  clksrcsel : ClockRegister
  cclkcfg : ClockRegister
  pll0cfg : ClockRegister
  pll0feed : ClockRegister
  pll0con : ClockRegister
  pll0stat : ClockRegister

pub data Access : Type 0 where
  write_to : ClockRegister → ℕ → Access
  read_from : ClockRegister → ℕ → Access

-- The tests of the three loops.
unfoldable pub main_ready : ℕ → Bool
main_ready v = v / 2 ^ 6 % 2 == 1

unfoldable pub pll_locked : ℕ → Bool
pll_locked v = v / 2 ^ 26 % 2 == 1

unfoldable pub pll_joined : ℕ → Bool
pll_joined v = not (v / 2 ^ 24 % 4 == 0)

-- `while (!(reg & mask)) {};` on fuel: the reads that it makes; none when the fuel runs out.
unfoldable pub wait_for : ClockRegister → (ℕ → Bool) → ℕ → (ℕ → ℕ) → Option (List Access)
wait_for reg test zero answers = none
wait_for reg test (suc n) answers =
    let rest = wait_for reg test n (λ (k : ℕ). answers (suc k)) in
    let seen = read_from reg (answers 0) in
    if test (answers 0)
    then some (seen ∷ [])
    else elim rest [ none ↦ none | some more ↦ some (seen ∷ more) ]

abbrev pub feed : List Access
feed = write_to pll0feed 0xAA ∷ write_to pll0feed 0x55 ∷ []

abbrev pub before_ready : List Access
before_ready = write_to scs (2 ^ 5) ∷ []

abbrev pub before_lock : List Access
before_lock =
    write_to clksrcsel 1
    ∷ write_to cclkcfg 2
    ∷ write_to pll0cfg (bit_or 24 (2 ^ 16))
    ∷ (feed ++ (write_to pll0con 1 ∷ feed))

abbrev pub before_joined : List Access
before_joined = write_to pll0con 3 ∷ feed

unfoldable pub init_clocking : ℕ → (ℕ → ℕ) → (ℕ → ℕ) → (ℕ → ℕ) → Option (List Access)
unfolding wait_for
init_clocking fuel ready lock joined = elim (wait_for scs main_ready fuel ready) [
  | none ↦ none
  | some first ↦ elim (wait_for pll0stat pll_locked fuel lock) [
    | none ↦ none
    | some second ↦ elim (wait_for pll0stat pll_joined fuel joined) [
      | none ↦ none
      | some third ↦
          some (before_ready ++ (first ++ (before_lock ++ (second ++ (before_joined ++ third)))))
    ]
  ]
]
