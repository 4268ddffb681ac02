-- ===== src/Start/Clock/Frequency.antt =====
-- The clock generator as the accesses drive it: a write of the PLL's registers takes effect with
-- the feed sequence.
use lpc17xx_network.Base.{
  ℕ, zero, suc, ◌+◌, ◌*◌, ◌/◌, ◌%◌, ◌^◌, ◌<◌, ◌≡◌, refl, ◌∙◌, ap, arith, List, [], ◌∷◌, ◌++◌, Bool,
  true, false, ◌&&◌, ◌||◌, not, some, ◌==◌, inl, inr, Bool-cases, if◌then◌else◌,
}
use lpc17xx_network.Start.Clock.{
  ClockRegister, scs, clksrcsel, cclkcfg, pll0cfg, pll0feed, pll0con, pll0stat, Access, write_to,
  read_from, main_ready, pll_locked, pll_joined, wait_for, before_ready, before_lock, before_joined,
  init_clocking,
}

pub record Generator : Type 0 where
  pub ready : Bool
  pub source : ℕ
  pub divider : ℕ
  pub cfg : ℕ
  pub con : ℕ
  pub half_fed : Bool
  pub active_cfg : ℕ
  pub active_con : ℕ
  pub locked : Bool
  pub misused : Bool

abbrev pub reset_generator : Generator
reset_generator = record {
  ready = false;
  source = 0;
  divider = 1;
  cfg = 0;
  con = 0;
  half_fed = false;
  active_cfg = 0;
  active_con = 0;
  locked = false;
  misused = false;
}

-- The oscillator is selected only when it is ready, and the PLL joined only when it has locked.
unfoldable pub drive : Generator → Access → Generator
drive g (write_to scs v) = g
drive g (write_to clksrcsel v) = record g {
  source = v;
  half_fed = false;
  misused = g.misused || not g.ready;
}
drive g (write_to cclkcfg v) = record g { divider = v + 1; half_fed = false }
drive g (write_to pll0cfg v) = record g { cfg = v; half_fed = false }
drive g (write_to pll0con v) = record g { con = v; half_fed = false }
drive g (write_to pll0stat v) = record g { misused = true }
drive g (write_to pll0feed v) =
    if g.half_fed && (v == 0x55)
    then record g {
      half_fed = false;
      active_cfg = g.cfg;
      active_con = g.con;
      misused = g.misused || ((g.con / 2 % 2 == 1) && not g.locked);
    }
    else record g { half_fed = v == 0xAA }
drive g (read_from scs v) = record g { ready = g.ready || main_ready v }
drive g (read_from pll0stat v) = record g { locked = g.locked || pll_locked v }
drive g (read_from _ v) = g

unfoldable pub driven : Generator → List Access → Generator
driven g [] = g
driven g (a ∷ rest) = driven (drive g a) rest

-- The processor's clock with an oscillator of `fin` MHz: 2 * M * fin / N, over the divider, when
-- the PLL is enabled and joined to the oscillator.
unfoldable pub cclk : ℕ → Generator → ℕ
cclk fin g =
    if (g.source == 1) && (g.active_con == 3)
    then 2 * (g.active_cfg % 2 ^ 15 + 1) * fin / (g.active_cfg / 2 ^ 16 + 1) / g.divider
    else 0

driven-append :
    (g : Generator) (xs ys : List Access) → driven g (xs ++ ys) ≡ driven (driven g xs) ys
unfolding driven
driven-append g [] ys = refl
driven-append g (a ∷ xs) ys = driven-append (drive g a) xs ys

-- A wait ends when an answer passes its test within the fuel. What `after` looks at is then what
-- `goal` says, when it is so for a read that passes and a read that does not pass leaves `goal`.
module _ (reg : ClockRegister) (test : ℕ → Bool) (after goal : Generator → Generator)
    (pass : (g : Generator) (v : ℕ) → test v ≡ true → after (drive g (read_from reg v)) ≡ goal g)
    (stay : (g : Generator) (v : ℕ) → goal (drive g (read_from reg v)) ≡ goal g) where
  wait_for-driven :
      (n k : ℕ) (answers : ℕ → ℕ)
      → k < n
      → test (answers k) ≡ true
      → (seen : List Access) × (wait_for reg test n answers ≡ some seen)
        × ((g : Generator) → after (driven g seen) ≡ goal g)
  unfolding wait_for driven
  wait_for-driven zero k answers h e = absurd (omega arith)
  wait_for-driven (suc n) zero answers h e =
      (read_from reg (answers 0) ∷ [], rw (wait_for, e) refl, λ g. pass g (answers 0) e)
  wait_for-driven (suc n) (suc k) answers h e = elim (Bool-cases (test (answers 0))) [
    | inl now ↦
        (read_from reg (answers 0) ∷ [], rw (wait_for, now) refl, λ g. pass g (answers 0) now)
    | inr wait ↦
        let (seen, ends, goes) = wait_for-driven n k (λ (j : ℕ). answers (suc j)) (omega arith) e in
        (
          read_from reg (answers 0) ∷ seen,
          rw (wait_for, wait, ends) refl,
          λ g. goes (drive g (read_from reg (answers 0))) ∙ stay g (answers 0),
        )
  ]

or_true : (b : Bool) → (b || true) ≡ true
or_true true = refl
or_true false = refl

abbrev when_ready : Generator → Generator
when_ready g = record g { ready = true }

abbrev when_locked : Generator → Generator
when_locked g = record g { locked = true }

ready_wait :
    (n k : ℕ) (answers : ℕ → ℕ)
    → k < n
    → main_ready (answers k) ≡ true
    → (seen : List Access) × (wait_for scs main_ready n answers ≡ some seen)
      × ((g : Generator) → driven g seen ≡ when_ready g)
unfolding drive
ready_wait n k answers h e =
    wait_for-driven scs main_ready (λ g. g) when_ready (λ g v t. rw (t, or_true g.ready) refl)
      (λ g v. refl) n k answers h e

lock_wait :
    (n k : ℕ) (answers : ℕ → ℕ)
    → k < n
    → pll_locked (answers k) ≡ true
    → (seen : List Access) × (wait_for pll0stat pll_locked n answers ≡ some seen)
      × ((g : Generator) → driven g seen ≡ when_locked g)
unfolding drive
lock_wait n k answers h e =
    wait_for-driven pll0stat pll_locked (λ g. g) when_locked
      (λ g v t. rw (t, or_true g.locked) refl) (λ g v. refl) n k answers h e

joined_wait :
    (n k : ℕ) (answers : ℕ → ℕ)
    → k < n
    → pll_joined (answers k) ≡ true
    → (seen : List Access) × (wait_for pll0stat pll_joined n answers ≡ some seen)
      × ((g : Generator) → when_locked (driven g seen) ≡ when_locked g)
unfolding drive
joined_wait n k answers h e =
    wait_for-driven pll0stat pll_joined when_locked when_locked (λ g v t. refl) (λ g v. refl) n k
      answers h e

-- When the oscillator gets ready, the PLL locks and joins within the reads that the fuel allows,
-- init_clocking ends; a clock generator that takes its accesses in their order, the PLL registers
-- with their feed sequence, then gives the processor 100 MHz from a crystal of 12 MHz, and was
-- never switched to an oscillator that is not ready or to a PLL that has not locked.
pub init_clocking-cclk :
    (fuel i j k : ℕ) (ready lock joined : ℕ → ℕ)
    → i < fuel
    → main_ready (ready i) ≡ true
    → j < fuel
    → pll_locked (lock j) ≡ true
    → k < fuel
    → pll_joined (joined k) ≡ true
    → (done : List Access) × (init_clocking fuel ready lock joined ≡ some done)
      × (cclk 12 (driven reset_generator done) ≡ 100)
      × ((driven reset_generator done).misused ≡ false)
unfolding init_clocking cclk driven drive
init_clocking-cclk fuel i j k ready lock joined hi ei hj ej hk ek =
    let (first, run1, g1) = ready_wait fuel i ready hi ei in
    let (second, run2, g2) = lock_wait fuel j lock hj ej in
    let (third, run3, g3) = joined_wait fuel k joined hk ek in
    let s2 = before_joined ++ third in
    let s1 = before_lock ++ (second ++ s2) in
    let at_ready = when_ready (driven reset_generator before_ready) in
    let at_lock = when_locked (driven at_ready before_lock) in
    let path =
      driven-append reset_generator before_ready (first ++ s1)
      ∙ driven-append (driven reset_generator before_ready) first s1
      ∙ ap (λ g. driven g s1) (g1 (driven reset_generator before_ready))
      ∙ driven-append at_ready before_lock (second ++ s2)
      ∙ driven-append (driven at_ready before_lock) second s2
      ∙ ap (λ g. driven g s2) (g2 (driven at_ready before_lock))
      ∙ driven-append at_lock before_joined third in
    let ends = ap when_locked path ∙ g3 (driven at_lock before_joined) in
    (
      before_ready ++ (first ++ (before_lock ++ (second ++ s2))),
      rw (init_clocking, run1, run2, run3) refl,
      ap (cclk 12) ends,
      ap (λ (g : Generator). g.misused) ends,
    )
