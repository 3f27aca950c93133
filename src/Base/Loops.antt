-- ===== src/Base/Loops.antt =====
-- Counted loops.
use Prim.Native.Nat.{ℕ, zero, suc, ◌+◌}

-- for (i = 0; i < n; i++) s = body(i, s)
abbrev pub for_below {ℓ} : {S : Type ℓ} → ℕ → (ℕ → S → S) → S → S
for_below zero body s = s
for_below (suc n) body s = body n (for_below n body s)

-- for (i = lo + n; i > lo; i--) s = body(i, s)
abbrev pub for_down {ℓ} : {S : Type ℓ} → ℕ → ℕ → (ℕ → S → S) → S → S
for_down zero lo body s = s
for_down (suc n) lo body s = for_down n lo body (body (lo + suc n) s)
