-- ===== src/CString/Memory.antt =====
-- What the memory functions of src/lib/string.c do within their blocks.
use my_dos.Base.{
  ℕ, zero, suc, ◌%◌, ◌≤◌, ◌≡◌, ◌↔◌, refl, arith, List, [], ◌∷◌, ◌++◌, none, some, if◌then◌else◌,
  leb, take, drop, length, replicate,
}
use my_dos.Base.Int.{pos}
use my_dos.CString.{memset, memcpy, memcmp}

-- Filling writes the byte over the first count bytes and leaves the rest, and faults exactly if the
-- block is shorter.
pub memset_lem :
    (destination : List ℕ) (value count : ℕ)
    → memset destination value count ≡ (
        if leb count (length destination)
        then some (replicate count (value % 256) ++ drop count destination)
        else none)
unfolding memset
memset_lem destination value zero = ground arith
memset_lem [] value (suc count) = ground arith
memset_lem (b ∷ destination) value (suc count) = ground (arith, memset_lem destination value count)

-- Copying writes the first count bytes of the source over those of the destination and leaves the
-- rest, and faults exactly if a block is shorter.
pub memcpy_lem :
    (destination source : List ℕ) (count : ℕ)
    → memcpy destination source count ≡ (
        if leb count (length destination)
        then if leb count (length source)
          then some (take count source ++ drop count destination)
          else none
        else none)
unfolding memcpy
memcpy_lem destination source zero = ground arith
memcpy_lem [] source (suc count) = ground arith
memcpy_lem (b ∷ destination) [] (suc count) = ground arith
memcpy_lem (b ∷ destination) (c ∷ source) (suc count) =
    ground (arith, memcpy_lem destination source count)

-- For blocks of at least count bytes, the comparison returns 0 exactly if the first count bytes
-- agree.
pub memcmp-eq-zero :
    (left right : List ℕ) (count : ℕ)
    → count ≤ length left
    → count ≤ length right
    → (memcmp left right count ≡ some (pos 0)) ↔ (take count left ≡ take count right)
unfolding memcmp
memcmp-eq-zero left right zero h k = (λ e. refl, λ e. refl)
memcmp-eq-zero [] right (suc count) h k = absurd (omega arith)
memcmp-eq-zero (a ∷ left) [] (suc count) h k = absurd (omega arith)
memcmp-eq-zero (a ∷ left) (b ∷ right) (suc count) h k =
    let ih = memcmp-eq-zero left right count (omega arith) (omega arith) in
    (λ e. ground (arith, ih.0), λ e. ground (arith, ih.1))
