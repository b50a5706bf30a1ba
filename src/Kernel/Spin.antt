-- ===== src/Kernel/Spin.antt =====
-- A loop that waits for an interrupt handler to change the state, `while (!test) ;`.
use ece391_mp.Base.{Bool, List, [], ◌∷◌, Option, none, some, Result, ok, ◌>>=◌, if◌then◌else◌}
use ece391_mp.Kernel.{Kernel}

-- What an interrupt that arrives during the wait does to the state.
abbrev pub Interrupt : Type 0
Interrupt = Kernel → Result Kernel

-- The loop, with the interrupts that arrive one after the other. `none` means that it still waits
-- when all of them have been handled.
unfoldable pub spin : (Kernel → Bool) → List Interrupt → Kernel → Result (Option Kernel)
spin test [] k = if test k then ok (some k) else ok none
spin test (irq ∷ irqs) k =
    let rest = irq k >>= λ k'. spin test irqs k' in if test k then ok (some k) else rest
