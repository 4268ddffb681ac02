-- ===== src/Irq/Nesting.antt =====
-- Sections of code between irq_disable and irq_enable.
use lpc17xx_network.Base.{◌≡◌, refl, ◌∙◌, subst, sym, List, [], ◌∷◌, ◌++◌, Bool, true}
use lpc17xx_network.Irq.{irq_disable, irq_enable}

-- Code that calls the two in pairs, with work in between.
pub data Code : Type 0 where
  work : Code
  masked : Code → Code
  in_order : Code → Code → Code

-- PRIMASK after the code, and what it is at each piece of work.
unfoldable pub run_code : Code → Bool → Bool × List Bool
unfolding irq_disable irq_enable
run_code work primask = (primask, primask ∷ [])
run_code (masked body) primask =
    let (flags, p1) = irq_disable primask in
    let (p2, seen) = run_code body p1 in (irq_enable flags p2, seen)
run_code (in_order first second) primask =
    let (p1, seen) = run_code first primask in
    let (p2, more) = run_code second p1 in (p2, seen ++ more)

restores : (c : Code) (primask : Bool) → (run_code c primask).0 ≡ primask
unfolding run_code irq_enable irq_disable
restores work primask = refl
restores (masked body) primask = refl
restores (in_order first second) primask =
    restores second (run_code first primask).0 ∙ restores first primask

-- Every entry is true.
abbrev pub AllMasked : List Bool → Type 0
AllMasked [] = Unit
AllMasked (primask ∷ seen) = (primask ≡ true) × AllMasked seen

AllMasked-append : (xs ys : List Bool) → AllMasked xs → AllMasked ys → AllMasked (xs ++ ys)
AllMasked-append [] ys a b = b
AllMasked-append (x ∷ xs) ys a b = (a.0, AllMasked-append xs ys a.1 b)

stays_masked : (c : Code) → AllMasked (run_code c true).1
unfolding run_code irq_disable
stays_masked work = (refl, tt)
stays_masked (masked body) = stays_masked body
stays_masked (in_order first second) =
    AllMasked-append (run_code first true).1 (run_code second (run_code first true).0).1
      (stays_masked first)
      (subst (λ p. AllMasked (run_code second p).1) (sym (restores first true))
        (stays_masked second))

-- A section.
pub run_code-AllMasked :
    (body : Code) (primask : Bool)
    → ((run_code (masked body) primask).0 ≡ primask) × AllMasked (run_code (masked body) primask).1
unfolding run_code irq_disable
run_code-AllMasked body primask = (restores (masked body) primask, stays_masked body)
