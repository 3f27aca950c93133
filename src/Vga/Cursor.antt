-- ===== src/Vga/Cursor.antt =====
-- The cursor that `move_cursor` of src/kernel/drivers/vga.c sets, as the display controller reads
-- the bytes sent to its two ports.
use my_dos.Base.{ℕ, ◌+◌, ◌*◌, ◌<◌, ◌≡◌, arith, List, [], ◌∷◌, ◌==◌, if◌then◌else◌}
use my_dos.Kernel.{vga_width, vga_height}
use my_dos.Vga.{move_cursor, vga_ctrl}

-- The controller: the register that is selected, and the two halves of the cursor's position.
pub record Controller : Type 0 where
  pub selected : ℕ
  pub low : ℕ
  pub high : ℕ

abbrev pub receive : List (ℕ × ℕ) → Controller → Controller
receive [] crtc = crtc
receive ((port, value) ∷ rest) crtc = receive rest (
    if port == vga_ctrl
    then record crtc { selected = value }
    else if crtc.selected == 0x0F
    then record crtc { low = value }
    else if crtc.selected == 0x0E
    then record crtc { high = value }
    else crtc)

-- For a position on the screen, the bytes sent put the cell y * 80 + x into the controller's two
-- registers, whatever it did before.
pub move_cursor_lem :
    (x y : ℕ) (crtc : Controller)
    → x < vga_width
    → y < vga_height
    → (let after = receive (move_cursor x y) crtc in
        (after.high * 256 + after.low ≡ y * vga_width + x) × (after.high < 256) × (after.low < 256))
unfolding move_cursor
move_cursor_lem x y crtc hx hy = (omega arith, omega arith, omega arith)
