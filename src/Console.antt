-- ===== src/Console.antt =====
-- The text screen as the commands of src/kernel/kernel.c use it: the words of the screen, the theme
-- and the row of the cursor, which the commands pass about as `int *cursor_y`.
use my_dos.Base.{
  ℕ, suc, ◌<◌, ◌≡◌, refl, arith, Bool, true, false, List, String, codes, if◌then◌else◌,
}
use my_dos.Kernel.{vga_height}
use my_dos.Vga.{Theme, Words, print, scroll_screen, clear_screen}

pub record Console : Type 0 where
  pub words : Words
  pub theme : Theme
  pub cursor_y : ℕ

-- print(text, color, x, *cursor_y)
unfoldable pub write : List ℕ → ℕ → ℕ → Console → Console
write text color x c = record c { words = print text color x c.cursor_y c.theme c.words }

abbrev pub write_text : String → ℕ → ℕ → Console → Console
write_text text = write (codes text)

unfoldable pub scrl : Console → Console
scrl c =
    let (y, words) = scroll_screen (suc c.cursor_y) c.theme c.words in
    record c { words = words; cursor_y = y }

-- clear_screen()
unfoldable pub clear : Console → Console
clear c = record c { words = clear_screen c.theme c.words }

-- The row of the cursor is one of the screen's.
pub record OnScreen (c : Console) : Type 0 where
  pub in_rows : c.cursor_y < vga_height

pub cursor_y-write :
    (text : List ℕ) (color x : ℕ) (c : Console) → (write text color x c).cursor_y ≡ c.cursor_y
unfolding write
cursor_y-write text color x c = refl

-- Wherever the cursor was.
pub scrl-OnScreen : (c : Console) → OnScreen (scrl c)
unfolding scrl scroll_screen
scrl-OnScreen c = record { in_rows = ground arith }

pub write-OnScreen :
    (text : List ℕ) (color x : ℕ) (c : Console) → OnScreen c → OnScreen (write text color x c)
unfolding write
write-OnScreen text color x c h = record { in_rows = h.in_rows }

-- A console whose cursor is put into a row of the screen.
pub at-OnScreen : (c : Console) → c.cursor_y < vga_height → OnScreen c
at-OnScreen c h = record { in_rows = h }

pub OnScreen-if :
    (b : Bool) (x y : Console) → OnScreen x → OnScreen y → OnScreen (if b then x else y)
OnScreen-if true x y h k = h
OnScreen-if false x y h k = k
