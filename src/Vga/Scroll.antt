-- ===== src/Vga/Scroll.antt =====
-- The screen after `scroll_screen` of src/kernel/drivers/vga.c, and after `clear_screen`.
use my_dos.Base.{
  ℕ, zero, suc, ◌+◌, ◌*◌, ◌-◌, ◌≤◌, ◌<◌, ◌≡◌, arith, ap, ◌∙◌, Bool, true, false, ◌&&◌, ltb, leb,
  if◌then◌else◌, for_below, lt→ltb,
}
use my_dos.Kernel.{vga_width, vga_height}
use my_dos.Vga.{
  blank_last_row, Theme, Words, put_word, blank, clear_screen, copy_row, copy_rows, scroll_screen,
}

if-true : {A : Type 0} {b : Bool} (x y : A) → b ≡ true → (if b then x else y) ≡ x
if-true {b} x y h = ap (λ c. if c then x else y) h

if-false : {A : Type 0} {b : Bool} (x y : A) → b ≡ false → (if b then x else y) ≡ y
if-false {b} x y h = ap (λ c. if c then x else y) h

-- A loop that writes one word to consecutive cells.
fill-at :
    (n base word : ℕ) (words : Words) (i : ℕ)
    → for_below n (λ x. put_word (base + x) word) words i
      ≡ (if leb base i && ltb i (base + n) then word else words i)
unfolding put_word
fill-at zero base word words i = ground arith
fill-at (suc n) base word words i = ground (arith, fill-at n base word words i)

copy_row-at :
    (n y : ℕ) (words : Words) (i : ℕ)
    → n ≤ vga_width
    → copy_row n y words i ≡ (
        if leb (y * vga_width) i && ltb i (y * vga_width + n)
        then words (i + vga_width)
        else words i)
unfolding copy_row put_word
copy_row-at zero y words i h = ground arith
copy_row-at (suc n) y words i h =
    ground (arith, copy_row-at n y words i, copy_row-at n y words (suc y * vga_width + n))

copy_rows-at :
    (n : ℕ) (words : Words) (i : ℕ)
    → copy_rows n words i ≡ (if ltb i (n * vga_width) then words (i + vga_width) else words i)
unfolding copy_rows
copy_rows-at zero words i = ground arith
copy_rows-at (suc n) words i =
    copy_row-at vga_width n (copy_rows n words) i (omega arith)
    ∙ rw (copy_rows-at n words i, copy_rows-at n words (i + vga_width)) (ground arith)

clear-at :
    (n word : ℕ) (words : Words) (i : ℕ)
    → for_below n (λ x. put_word x word) words i ≡ (if ltb i n then word else words i)
unfolding put_word
clear-at zero word words i = ground arith
clear-at (suc n) word words i = ground (arith, clear-at n word words i)

-- Clearing blanks every cell of the screen and nothing behind it.
pub clear_screen_lem :
    (theme : Theme) (words : Words) (i : ℕ)
    → clear_screen theme words i ≡ (if ltb i (vga_width * vga_height) then blank theme else words i)
unfolding clear_screen
clear_screen_lem theme words i = clear-at 2000 (blank theme) words i

-- The rows of the screen after scrolling: each row but the last is the one below it, the last one is
-- blank, and what lies behind the screen is untouched.
abbrev pub scrolled : Theme → Words → Words
scrolled theme words i =
    if ltb i (vga_width * (vga_height - 1))
    then words (i + vga_width)
    else if ltb i (vga_width * vga_height)
    then blank theme
    else words i

blank_last_row-at :
    (theme : Theme) (words : Words) (i : ℕ)
    → blank_last_row theme words i ≡ (if leb 1920 i && ltb i 2000 then blank theme else words i)
unfolding blank_last_row
blank_last_row-at theme words i = fill-at vga_width 1920 (blank theme) words i

-- A cursor below the screen moves every row up by one, blanks the last row, changes nothing behind
-- the screen and puts the cursor on the last row; any other cursor changes nothing.
pub scroll_screen_lem :
    (cursor_y : ℕ) (theme : Theme) (words : Words)
    → ((cursor_y < vga_height) → scroll_screen cursor_y theme words ≡ (cursor_y, words))
      × ((vga_height ≤ cursor_y)
          → ((scroll_screen cursor_y theme words).0 ≡ vga_height - 1)
            × ((i : ℕ) → (scroll_screen cursor_y theme words).1 i ≡ scrolled theme words i))
unfolding scroll_screen
scroll_screen_lem cursor_y theme words = (
  λ h. if-true _ _ (lt→ltb cursor_y vga_height h),
  λ h.
      let out : ltb cursor_y vga_height ≡ false = ground arith in
      let moved : scroll_screen cursor_y theme words
          ≡ (24, blank_last_row theme (copy_rows 24 words)) =
        if-false _ _ out in
      (
        ap (λ p. p.0) moved,
        λ i.
            ap (λ p. p.1 i) moved
            ∙ blank_last_row-at theme (copy_rows 24 words) i
            ∙ rw (copy_rows-at 24 words i) (ground arith),
      ),
)
