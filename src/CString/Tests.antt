-- ===== src/CString/Tests.antt =====
-- Runs of src/lib/string.c and of the number formatting, and the theorems at these inputs.
use my_dos.Base.{ℕ, ◌≡◌, ◌↔◌, refl, arith, List, [], ◌∷◌, codes, replicate, true}
use my_dos.Base.Int.{pos}
use my_dos.CString.{strcmp, strncmp, equals, itoanum, itohex}
use my_dos.CString.Compare.{text, strcmp-eq-zero, equals_lem}
use my_dos.CString.Decimal.{IsDecimal, itoanum-IsDecimal}

itoanum_run : text (itoanum 4096 (replicate 16 0)) ≡ codes "4096"
unfolding itoanum
itoanum_run = refl

itohex_run : text (itohex 0xB8000 (replicate 16 0)) ≡ codes "0x000B8000"
unfolding itohex
itohex_run = refl

strncmp_run : strncmp (codes "cat a.txt") (codes "cat b.txt") 4 ≡ pos 0
unfolding strncmp
strncmp_run = refl

strcmp-eq-zero_example :
    (strcmp (codes "help") (codes "help me") ≡ pos 0)
    ↔ (text (codes "help") ≡ text (codes "help me"))
strcmp-eq-zero_example = strcmp-eq-zero (codes "help") (codes "help me")

equals_lem_example : (equals (codes "de") "de" ≡ true) ↔ (text (codes "de") ≡ text (codes "de"))
equals_lem_example = equals_lem (codes "de") "de"

abbrev left_block : List ℕ
left_block = 1 ∷ 2 ∷ 3 ∷ []

abbrev right_block : List ℕ
right_block = 1 ∷ 2 ∷ 9 ∷ []

itoanum-IsDecimal_example : IsDecimal 4096 (text (itoanum 4096 (replicate 16 7)))
itoanum-IsDecimal_example = itoanum-IsDecimal 4096 (replicate 16 7) (omega arith) (omega arith)
