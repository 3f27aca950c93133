-- ===== src/Vga.antt =====
-- src/kernel/drivers/vga.c: the text screen, its theme and its cursor. A screen position is the
-- column `x` and the row `y`, neither of them negative.
pub mod Logo
pub mod Drawing
pub mod Colours
pub mod Print
pub mod Scroll
pub mod Cursor
mod Tests
use my_dos.Base.{
  ℕ, suc, ◌+◌, ◌*◌, ◌-◌, ◌/◌, ◌%◌, bit_or, Bool, true, false, List, [], ◌∷◌, ltb, leb, ◌==◌,
  if◌then◌else◌, for_below,
}
use my_dos.CString.{equals}
use my_dos.Kernel.{
  vga_width, vga_height, black, blue, green, red, brown, light_grey, dark_grey, light_blue,
  light_green, light_cyan, light_red, light_magenta, yellow, white,
}

-- The static variables.
pub record Theme : Type 0 where
  pub text : ℕ
  pub muted : ℕ
  pub error : ℕ
  pub prompt : ℕ
  pub title : ℕ
  pub background : ℕ

-- Their values at boot.
abbrev pub default_theme : Theme
default_theme = record {
  text = white;
  muted = light_grey;
  error = red;
  prompt = green;
  title = blue;
  background = black;
}

unfoldable pub theme_color : ℕ → Theme → ℕ
theme_color color theme =
    if color == white
    then theme.text
    else if color == light_grey
    then theme.muted
    else if color == red
    then theme.error
    else if color == green
    then theme.prompt
    else if color == blue
    then theme.title
    else if color == black
    then theme.background
    else color

-- An `unsigned char`.
unfoldable pub theme_attribute : ℕ → Theme → ℕ
unfolding theme_color
theme_attribute color theme = bit_or (theme_color color theme) (theme.background * 16) % 256

unfoldable pub change_theme : List ℕ → Theme → Bool × Theme
change_theme name theme =
    if equals name "default"
    then (true, default_theme)
    else if equals name "matrix"
    then (
      true,
      record {
        text = light_green;
        muted = green;
        error = green;
        prompt = light_green;
        title = white;
        background = black;
      },
    )
    else if equals name "ocean"
    then (
      true,
      record {
        text = white;
        muted = light_blue;
        error = light_red;
        prompt = light_cyan;
        title = light_blue;
        background = black;
      },
    )
    else if equals name "sunset"
    then (
      true,
      record {
        text = yellow;
        muted = dark_grey;
        error = light_red;
        prompt = light_magenta;
        title = red;
        background = brown;
      },
    )
    else (false, theme)

-- The 16-bit words from VGA_ADDRESS on.
abbrev pub Words : Type 0
Words = ℕ → ℕ

-- vga_buffer[index] = word
unfoldable pub put_word : ℕ → ℕ → Words → Words
put_word index word words i = if i == index then word else words i

-- character | color << 8
unfoldable pub cell : ℕ → ℕ → ℕ
cell character color = bit_or character (color * 256)

-- The loop of `print`, from the offset on; a zero or the end of the screen stops it.
unfoldable pub print_from : ℕ → List ℕ → ℕ → Words → Words
unfolding put_word cell
print_from color [] offset words = words
print_from color (c ∷ msg) offset words =
    let rest = print_from color msg (suc offset) (put_word offset (cell c color) words) in
    if c == 0 then words else if leb (vga_width * vga_height) offset then words else rest

unfoldable pub print : List ℕ → ℕ → ℕ → ℕ → Theme → Words → Words
unfolding theme_attribute print_from
print msg color x y theme = print_from (theme_attribute color theme) msg (y * vga_width + x)

unfoldable pub blank : Theme → ℕ
unfolding cell theme_attribute
blank theme = cell 32 (theme_attribute light_grey theme)

unfoldable pub clear_screen : Theme → Words → Words
unfolding put_word blank
clear_screen theme = for_below (vga_width * vga_height) (λ index. put_word index (blank theme))

-- The loop over the columns of a row, and the loop over the rows.
unfoldable pub copy_row : ℕ → ℕ → Words → Words
unfolding put_word
copy_row n y =
    for_below n (λ x words. put_word (y * vga_width + x) (words (suc y * vga_width + x)) words)

unfoldable pub copy_rows : ℕ → Words → Words
unfolding copy_row
copy_rows n = for_below n (copy_row vga_width)

-- The loop over the last row.
unfoldable pub blank_last_row : Theme → Words → Words
unfolding put_word blank
blank_last_row theme =
    for_below vga_width (λ x. put_word ((vga_height - 1) * vga_width + x) (blank theme))

-- The new cursor row, and the screen.
unfoldable pub scroll_screen : ℕ → Theme → Words → ℕ × Words
unfolding copy_rows blank_last_row
scroll_screen cursor_y theme words =
    if ltb cursor_y vga_height
    then (cursor_y, words)
    else (vga_height - 1, blank_last_row theme (copy_rows (vga_height - 1) words))

abbrev pub vga_ctrl : ℕ
vga_ctrl = 0x3D4

abbrev pub vga_data : ℕ
vga_data = 0x3D5

-- The bytes that are sent, with their ports; `position` is an `unsigned short`.
unfoldable pub move_cursor : ℕ → ℕ → List (ℕ × ℕ)
move_cursor x y =
    let position = (y * vga_width + x) % 65536 in
    (vga_ctrl, 0x0F)
    ∷ (vga_data, position % 256)
    ∷ (vga_ctrl, 0x0E)
    ∷ (vga_data, position / 256 % 256)
    ∷ []
