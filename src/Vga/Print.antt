-- ===== src/Vga/Print.antt =====
-- What `print` and `clear_screen` of src/kernel/drivers/vga.c leave on the screen.
use my_dos.Base.{
  ℕ, suc, ◌+◌, ◌*◌, ◌-◌, ◌≡◌, arith, ap, true, ◌&&◌, List, [], ◌∷◌, ltb, leb, ◌==◌, if◌then◌else◌,
  Bool-cases, inl, inr, get_or,
}
use my_dos.CString.{strlen}
use my_dos.Kernel.{vga_width, vga_height}
use my_dos.Vga.{Theme, Words, put_word, cell, print_from, print, theme_attribute}

get_or-later :
    (c : ℕ) (msg : List ℕ) (i offset : ℕ)
    → leb (suc offset) i ≡ true
    → get_or (c ∷ msg) (i - offset) 0 ≡ get_or msg (i - suc offset) 0
get_or-later c msg i offset h =
    let e : i - offset ≡ suc (i - suc offset) = ground arith in ap (λ n. get_or (c ∷ msg) n 0) e

print_from-at :
    (color : ℕ) (msg : List ℕ) (offset : ℕ) (words : Words) (i : ℕ)
    → print_from color msg offset words i ≡ (
        if leb offset i && ltb i (offset + strlen msg) && ltb i 2000
        then cell (get_or msg (i - offset) 0) color
        else words i)
unfolding print_from strlen put_word
print_from-at color [] offset words i = ground arith
print_from-at color (c ∷ msg) offset words i =
    let rest = print_from-at color msg (suc offset) (put_word offset (cell c color) words) i in
    elim (Bool-cases (c == 0)) [
      | inl z ↦ rw z (ground arith)
      | inr z ↦ elim (Bool-cases (leb 2000 offset)) [
        | inl o ↦ rw (z, o) (ground arith)
        | inr o ↦
            rw (z, o, rest)
              (elim (Bool-cases (leb (suc offset) i)) [
                | inl l ↦ rw (get_or-later c msg i offset l) (ground arith)
                | inr l ↦ ground arith
              ])
      ]
    ]

-- Printing writes the bytes before the zero from its position on, in the attribute of the colour,
-- and nothing else and nothing behind the screen.
pub print_lem :
    (msg : List ℕ) (color x y : ℕ) (theme : Theme) (words : Words) (i : ℕ)
    → (let offset = y * vga_width + x in
        print msg color x y theme words i ≡ (
          if leb offset i && ltb i (offset + strlen msg) && ltb i (vga_width * vga_height)
          then cell (get_or msg (i - offset) 0) (theme_attribute color theme)
          else words i))
unfolding print
print_lem msg color x y theme words i =
    print_from-at (theme_attribute color theme) msg (y * vga_width + x) words i
