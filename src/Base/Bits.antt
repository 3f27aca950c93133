-- ===== src/Base/Bits.antt =====
-- Facts about a range of small numbers, checked value by value.
use Prim.Native.Nat.{ℕ, zero, suc, ◌+◌, ◌*◌, ◌/◌, ◌<◌, bit_and, bit_or}
use mathlib.Core.Path.{◌≡◌, refl}
use mathlib.Core.Bool.{Bool, true, ◌&&◌}
use native.Mathlib.Omega.{arith}
use my_dos.Base.Tests.{◌==◌, ==→eq}

-- Does the test pass at every number below the bound?
unfoldable pub passes_below : ℕ → (ℕ → Bool) → Bool
passes_below zero test = true
passes_below (suc n) test = test n && passes_below n test

pub passes_below_lem :
    (n : ℕ) (test : ℕ → Bool) (x : ℕ) → passes_below n test ≡ true → x < n → test x ≡ true
unfolding passes_below
passes_below_lem zero test x h l = absurd (omega arith)
passes_below_lem (suc n) test x h l = ground (arith, passes_below_lem n test x)

-- Two halves of a byte.
pub bit_or-nibbles :
    (low high : ℕ) → low < 16 → high < 16 → bit_or low (high * 16) ≡ low + high * 16
unfolding passes_below
bit_or-nibbles low high l h = ==→eq (bit_or low (high * 16)) (low + high * 16) (
    passes_below_lem 16 (λ x. bit_or x (high * 16) == (x + high * 16)) low
      (passes_below_lem 16 (λ y. passes_below 16 (λ x. bit_or x (y * 16) == (x + y * 16))) high refl
        h)
      l)

pub bit_and-high_nibble : (value : ℕ) → value < 256 → bit_and value 0xF0 ≡ value / 16 * 16
unfolding passes_below
bit_and-high_nibble value h =
    ==→eq _ _ (passes_below_lem 256 (λ v. bit_and v 0xF0 == (v / 16 * 16)) value refl h)
