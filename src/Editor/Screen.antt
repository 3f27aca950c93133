-- ===== src/Editor/Screen.antt =====
-- What src/programs/myeditor/myeditor.c draws: the frame, the document and the status line.
use my_dos.Base.{
  ℕ, ◌+◌, List, [], ◌∷◌, ◌++◌, replicate, tabulate, codes, ltb, if◌then◌else◌, for_below,
}
use my_dos.Kernel.{light_grey, green, white}
use my_dos.Vga.{Theme, Words, print, clear_screen}
use my_dos.Editor.Document.{Document, editor_rows, editor_columns}
use my_dos.Editor.Session.{Editor}

abbrev pub editor_start_x : ℕ
editor_start_x = 1

abbrev pub editor_start_y : ℕ
editor_start_y = 3

abbrev pub editor_status_x : ℕ
editor_status_x = 36

abbrev pub editor_status_y : ℕ
editor_status_y = 1

abbrev pub editor_status_width : ℕ
editor_status_width = 43

-- show_status: the old text is overwritten with spaces first.
unfoldable pub draw_status : List ℕ → ℕ → Theme → Words → Words
draw_status message color theme words = print message color editor_status_x editor_status_y theme (
    print (replicate editor_status_width 32 ++ 0 ∷ []) light_grey editor_status_x editor_status_y
      theme words)

-- The character that is drawn in a column of a row, and the row's string.
abbrev pub shown : Document → ℕ → ℕ → ℕ
shown doc row column = if ltb column (doc.line_lengths row) then doc.cells row column else 32

abbrev pub display_line : Document → ℕ → List ℕ
display_line doc row = tabulate editor_columns (shown doc row) ++ 0 ∷ []

-- The loop of `draw_document`, with the number of its rows.
unfoldable pub draw_rows : ℕ → Document → Theme → Words → Words
draw_rows n doc theme =
    for_below n
      (λ row. print (display_line doc row) white editor_start_x (editor_start_y + row) theme)

unfoldable pub draw_document : Document → Theme → Words → Words
unfolding draw_rows
draw_document doc theme words = draw_rows editor_rows doc theme words

-- The loops of `ui`, with the number of their rounds.
unfoldable pub draw_sides : ℕ → Theme → Words → Words
draw_sides n theme = for_below n (λ i words.
    print (codes "|") light_grey 79 i theme (print (codes "|") light_grey 0 i theme words))

unfoldable pub draw_ends : ℕ → Theme → Words → Words
draw_ends n theme = for_below n (λ i words.
    print (codes "=") light_grey i 24 theme (print (codes "=") light_grey i 0 theme words))

unfoldable pub draw_rule : ℕ → Theme → Words → Words
draw_rule n theme = for_below n (λ x. print (codes "-") light_grey x 2 theme)

unfoldable pub draw_titles : Theme → Words → Words
draw_titles theme words =
    let w1 = print (codes "MYEDITOR") green 2 0 theme words in
    let w2 =
      print (codes "Save") light_grey 5 1 theme (print (codes "F1") light_grey 2 1 theme w1) in
    let w3 =
      print (codes "Open") light_grey 18 1 theme (print (codes "F2") light_grey 15 1 theme w2) in
    print (codes "Exit") light_grey 31 1 theme (print (codes "F3") light_grey 28 1 theme w3)

unfoldable pub ui : Theme → Words → Words
ui theme words =
    draw_rule 80 theme
      (draw_titles theme (draw_ends 80 theme (draw_sides 25 theme (clear_screen theme words))))

-- The screen with which a session starts, and the screen after a key.
unfoldable pub first_screen : Editor → Theme → Words → Words
first_screen ed theme words = draw_document ed.doc theme (ui theme words)
