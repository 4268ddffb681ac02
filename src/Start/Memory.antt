-- ===== src/Start/Memory.antt =====
-- What the two loops of _start leave in memory.
use lpc17xx_network.Base.{
  ℕ, zero, suc, ◌+◌, ◌-◌, ◌≤◌, ◌<◌, ◌≡◌, refl, ◌∙◌, ap, arith, Bool, true, some, ◌⊎◌, inl, inr, ltb,
  leb, ◌==◌, ◌&&◌, if◌then◌else◌, Bool-cases,
}
use native.Mathlib.Decide.{dec_lt}
use lpc17xx_network.Start.{store, copy_data, zero_bss, Sections, start_memory}

-- `a` lies between `lo` and `hi`.
abbrev pub within : ℕ → ℕ → ℕ → Bool
within lo hi a = leb lo a && ltb a hi

copy_data-some :
    (n src dst edata : ℕ) (m : ℕ → ℕ)
    → edata - dst < n
    → (src + (edata - dst) ≤ dst) ⊎ (edata ≤ src)
    → (m' : ℕ → ℕ) × (copy_data n src dst edata m ≡ some m')
      × ((a : ℕ) → m' a ≡ (if within dst edata a then m (src + (a - dst)) else m a))
unfolding copy_data
copy_data-some zero src dst edata m fuel apart = absurd (omega arith)
copy_data-some (suc n) src dst edata m fuel apart = elim (Bool-cases (ltb dst edata)) [
  | inl more ↦
      let (m', run, all) =
        copy_data-some n (src + 1) (dst + 1) edata (store dst (m src) m) (ground arith)
          (later more apart) in
      (m', rw more run, λ a. all a ∙ one more apart a)
  | inr done ↦ (m, rw done refl, λ a. ground arith)
]
  where
    later :
        ltb dst edata ≡ true
        → (src + (edata - dst) ≤ dst) ⊎ (edata ≤ src)
        → (src + 1 + (edata - (dst + 1)) ≤ dst + 1) ⊎ (edata ≤ src + 1)
    later more (inl below) = inl (ground arith)
    later more (inr above) = inr (omega arith)

    one :
        ltb dst edata ≡ true
        → (src + (edata - dst) ≤ dst) ⊎ (edata ≤ src)
        → (a : ℕ)
        → (if within (dst + 1) edata a
            then store dst (m src) m (src + 1 + (a - (dst + 1)))
            else store dst (m src) m a)
          ≡ (if within dst edata a then m (src + (a - dst)) else m a)
    one more apart a = elim (dec_lt dst a) [
      | yes after ↦
          let same : src + 1 + (a - (dst + 1)) ≡ src + (a - dst) = omega arith in
          rw same (elim apart [ inl below ↦ ground arith | inr above ↦ ground arith ])
      | no not_after ↦ elim (Bool-cases (a == dst)) [
        | inl here ↦ let first : src + (a - dst) ≡ src = ground arith in ground (arith, ap m first)
        | inr before ↦ ground arith
      ]
    ]

zero_bss-some :
    (n dst ebss : ℕ) (m : ℕ → ℕ)
    → ebss - dst < n
    → (m' : ℕ → ℕ) × (zero_bss n dst ebss m ≡ some m')
      × ((a : ℕ) → m' a ≡ (if within dst ebss a then 0 else m a))
unfolding zero_bss
zero_bss-some zero dst ebss m fuel = absurd (omega arith)
zero_bss-some (suc n) dst ebss m fuel = elim (Bool-cases (ltb dst ebss)) [
  | inl more ↦
      let (m', run, all) = zero_bss-some n (dst + 1) ebss (store dst 0 m) (ground arith) in
      (m', rw more run, λ a. all a ∙ ground arith)
  | inr done ↦ (m, rw done refl, λ a. ground arith)
]

-- With fuel above the sizes of the two sections, and an image that lies apart from the
-- initialised data, the two loops of _start end; the zeroed section then holds zeros, the rest of
-- the initialised data its image, and every other address what it held.
pub start_memory-some :
    (fuel : ℕ) (s : Sections) (m : ℕ → ℕ)
    → s.edata - s.sdata < fuel
    → s.ebss - s.sbss < fuel
    → (s.etext + (s.edata - s.sdata) ≤ s.sdata) ⊎ (s.edata ≤ s.etext)
    → (m' : ℕ → ℕ) × (start_memory fuel s m ≡ some m')
      × ((a : ℕ)
          → m' a ≡ (
              if within s.sbss s.ebss a
              then 0
              else if within s.sdata s.edata a
              then m (s.etext + (a - s.sdata))
              else m a))
unfolding start_memory
start_memory-some fuel s m data_fuel bss_fuel apart =
    let (m1, copied, what) = copy_data-some fuel s.etext s.sdata s.edata m data_fuel apart in
    let (m2, zeroed, zeros) = zero_bss-some fuel s.sbss s.ebss m1 bss_fuel in
    (m2, rw (start_memory, copied) zeroed, λ a. zeros a ∙ rw (what a) refl)
