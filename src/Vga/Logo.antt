-- ===== src/Vga/Logo.antt =====
-- The logo and the patterns of src/kernel/drivers/vga.c.
use my_dos.Base.{
  ℕ, ◌+◌, ◌*◌, ◌==◌, List, [], ◌∷◌, String, codes, get_or, ltb, if◌then◌else◌, for_below,
}
use my_dos.Kernel.{vga_width, dark_grey, red, green, blue}
use my_dos.Vga.{Theme, Words, put_word, cell, theme_attribute}

-- (unsigned short)c of a `char`, which has a sign.
abbrev pub short_of_char : ℕ → ℕ
short_of_char c = if ltb c 128 then c else c + 0xFF00

-- pattern[row][column]
abbrev pub pattern_char : List String → ℕ → ℕ → ℕ
pattern_char pattern row column = get_or (codes (get_or pattern row "")) column 0

-- The body of the inner loop.
unfoldable pub draw_cell : List String → ℕ → ℕ → ℕ → ℕ → ℕ → Words → Words
unfolding put_word cell
draw_cell pattern color x y row column words =
    let c = pattern_char pattern row column in
    if c == 32
    then words
    else put_word ((y + row) * vga_width + x + column) (cell (short_of_char c) color) words

-- Both loops, in the attribute of the colour.
unfoldable pub draw_logo_pattern : List String → ℕ → ℕ → ℕ → ℕ → ℕ → Theme → Words → Words
unfolding draw_cell theme_attribute
draw_logo_pattern pattern width height color x y theme =
    for_below height
      (λ row. for_below width (draw_cell pattern (theme_attribute color theme) x y row))

unfoldable pub draw_pattern : List String → ℕ → ℕ → ℕ → ℕ → ℕ → Theme → Words → Words
unfolding draw_logo_pattern
draw_pattern pattern width height color x y = draw_logo_pattern pattern width height color x y

abbrev pub m_pattern : List String
m_pattern = "M    M" ∷ "MM  MM" ∷ "M MM M" ∷ "M MM M" ∷ "M    M" ∷ "M    M" ∷ []

abbrev pub y_pattern : List String
y_pattern = "      " ∷ "y    y" ∷ "y    y" ∷ " yy y " ∷ "  yy  " ∷ " yy   " ∷ []

abbrev pub d_pattern : List String
d_pattern = "DDDDD " ∷ "D    D" ∷ "D    D" ∷ "D    D" ∷ "D    D" ∷ "DDDDD " ∷ []

abbrev pub o_pattern : List String
o_pattern = " OOOO " ∷ "O    O" ∷ "O    O" ∷ "O    O" ∷ "O    O" ∷ " OOOO " ∷ []

abbrev pub s_pattern : List String
s_pattern = " SSSSS" ∷ "S     " ∷ " SSSS " ∷ "     S" ∷ "     S" ∷ "SSSSS " ∷ []

unfoldable pub print_logo_color : ℕ → ℕ → ℕ → Theme → Words → Words
unfolding draw_logo_pattern
print_logo_color x start_y color theme words =
    let words = draw_logo_pattern m_pattern 6 6 color (x + 2) start_y theme words in
    let words = draw_logo_pattern y_pattern 6 6 color (x + 9) start_y theme words in
    let words = draw_logo_pattern d_pattern 6 6 color (x + 16) start_y theme words in
    let words = draw_logo_pattern o_pattern 6 6 color (x + 23) start_y theme words in
    draw_logo_pattern s_pattern 6 6 color (x + 30) start_y theme words

unfoldable pub print_logo_at : ℕ → ℕ → Theme → Words → Words
unfolding draw_logo_pattern
print_logo_at x start_y theme words =
    let words = draw_logo_pattern m_pattern 6 6 dark_grey (x + 2) start_y theme words in
    let words = draw_logo_pattern y_pattern 6 6 dark_grey (x + 9) start_y theme words in
    let words = draw_logo_pattern d_pattern 6 6 red (x + 16) start_y theme words in
    let words = draw_logo_pattern o_pattern 6 6 green (x + 23) start_y theme words in
    draw_logo_pattern s_pattern 6 6 blue (x + 30) start_y theme words

unfoldable pub print_logo : Theme → Words → Words
unfolding print_logo_at
print_logo = print_logo_at 0 0
