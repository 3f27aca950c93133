-- ===== src/Base/Words.antt =====
-- Two bytes of a word.
use Prim.Native.Nat.{ℕ, ◌+◌, ◌*◌, ◌<◌, bit_or}
use mathlib.Core.Path.{◌≡◌, refl}
use my_dos.Base.Tests.{◌==◌, ==→eq}
use my_dos.Base.Bits.{passes_below_lem}
unfoldable use my_dos.Base.Bits.{passes_below}

pub bit_or-bytes :
    (low high : ℕ) → low < 256 → high < 256 → bit_or low (high * 256) ≡ low + high * 256
unfolding passes_below
bit_or-bytes low high l h = ==→eq (bit_or low (high * 256)) (low + high * 256) (
    passes_below_lem 256 (λ x. bit_or x (high * 256) == (x + high * 256)) low
      (passes_below_lem 256 (λ y. passes_below 256 (λ x. bit_or x (y * 256) == (x + y * 256))) high
        refl h)
      l)
