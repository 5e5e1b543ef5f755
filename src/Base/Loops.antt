-- ===== src/Base/Loops.antt =====
-- Counted loops: `for (k = lo; k < lo + rounds; k++) state = step(k, state)`.
use Prim.Native.Nat.{ℕ, zero, suc, ◌+◌}

unfoldable pub for_range {ℓ} : {State : Type ℓ} → ℕ → ℕ → (ℕ → State → State) → State → State
for_range zero lo step state = state
for_range (suc rounds) lo step state = for_range rounds (lo + 1) step (step lo state)
