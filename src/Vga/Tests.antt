-- ===== src/Vga/Tests.antt =====
-- Runs of src/kernel/drivers/vga.c, and the theorems at these inputs.
use my_dos.Base.{ℕ, ◌≡◌, ◌≤◌, ◌<◌, arith, ◌+◌, ◌*◌, ◌-◌}
use my_dos.Kernel.{vga_width, vga_height, red}
use my_dos.Vga.{default_theme, Words, cell, theme_attribute, scroll_screen}
use my_dos.Vga.Scroll.{scrolled, scroll_screen_lem}
use my_dos.Vga.Cursor.{Controller}
use my_dos.Vga.Logo.{draw_logo_pattern, d_pattern}
use my_dos.Vga.Drawing.{draw_logo_pattern_lem}

abbrev screen : Words
screen i = i

abbrev crtc : Controller
crtc = record { selected = 0; low = 0; high = 0 }

scroll_screen_lem_example :
    ((25 < vga_height) → scroll_screen 25 default_theme screen ≡ (25, screen))
    × ((vga_height ≤ 25)
        → ((scroll_screen 25 default_theme screen).0 ≡ vga_height - 1)
          × ((i : ℕ)
              → (scroll_screen 25 default_theme screen).1 i ≡ scrolled default_theme screen i))
scroll_screen_lem_example = scroll_screen_lem 25 default_theme screen

draw_logo_pattern_lem_example :
    draw_logo_pattern d_pattern 6 6 red 16 0 default_theme screen (2 * vga_width + 21)
    ≡ cell b'D' (theme_attribute red default_theme)
draw_logo_pattern_lem_example =
    draw_logo_pattern_lem d_pattern 6 6 red 16 0 default_theme screen 2 21 (omega arith)
      (omega arith)
