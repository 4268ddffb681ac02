-- ===== src/Irq.antt =====
-- irq.h: the interrupt mask of the processor. PRIMASK is a Boolean, true when interrupts are masked.
pub mod Nesting
use lpc17xx_network.Base.{Bool, true, false}

-- The instructions.
abbrev pub cpsid : Bool → Bool
cpsid primask = true

abbrev pub cpsie : Bool → Bool
cpsie primask = false

-- The flags that are returned, and PRIMASK.
unfoldable pub irq_disable : Bool → Bool × Bool
irq_disable primask = let state = primask in (state, cpsid primask)

unfoldable pub irq_enable : Bool → Bool → Bool
irq_enable state primask = state
