-- ===== src/Start.antt =====
-- _start of init.c: the copy of the initial data, the clearing of the rest, the clock, and the
-- initcalls. Memory is a function from addresses to bytes.
pub mod Memory
pub mod Clock
use lpc17xx_network.Base.{
  ℕ, zero, suc, ◌+◌, ◌-◌, ◌*◌, ◌^◌, List, [], ◌∷◌, Bool, true, false, Option, none, some, ltb, ◌==◌,
  ◌&&◌, if◌then◌else◌, bit_and,
}

abbrev pub store : ℕ → ℕ → (ℕ → ℕ) → ℕ → ℕ
store p v m q = if q == p then v else m q

-- `while (dst < &_edata) *dst++ = *src++;` on fuel; none when the fuel runs out.
unfoldable pub copy_data : ℕ → ℕ → ℕ → ℕ → (ℕ → ℕ) → Option (ℕ → ℕ)
copy_data zero src dst edata m = none
copy_data (suc n) src dst edata m =
    let more = copy_data n (src + 1) (dst + 1) edata (store dst (m src) m) in
    if ltb dst edata then more else some m

-- `for (dst = &_sbss; dst < &_ebss; dst++) *dst = 0;`
unfoldable pub zero_bss : ℕ → ℕ → ℕ → (ℕ → ℕ) → Option (ℕ → ℕ)
zero_bss zero dst ebss m = none
zero_bss (suc n) dst ebss m =
    let more = zero_bss n (dst + 1) ebss (store dst 0 m) in if ltb dst ebss then more else some m

-- The addresses that the linker script gives.
pub record Sections : Type 0 where
  pub etext : ℕ
  pub sdata : ℕ
  pub edata : ℕ
  pub sbss : ℕ
  pub ebss : ℕ

-- The two loops, one after the other.
unfoldable pub start_memory : ℕ → Sections → (ℕ → ℕ) → Option (ℕ → ℕ)
start_memory fuel s m = elim (copy_data fuel s.etext s.sdata s.edata m) [
  | none ↦ none
  | some m' ↦ zero_bss fuel s.sbss s.ebss m'
]

-- call_initcalls, over what the calls work on; none where a call waits beyond its fuel.
unfoldable pub call_initcalls : {S : Type 0} → List (S → Option S) → S → Option S
call_initcalls [] s = some s
call_initcalls (initcall ∷ rest) s = elim (initcall s) [
  | none ↦ none
  | some s' ↦ call_initcalls rest s'
]
