-- ===== src/Editor/Session.antt =====
-- The state of the editor in src/programs/myeditor/myeditor.c, and what a key does to it that
-- changes neither a file nor the status line.
use my_dos.Base.{ℕ, ◌+◌, ◌-◌, ◌&&◌, ◌||◌, Bool, true, List, ltb, leb, ◌==◌, if◌then◌else◌}
use my_dos.Editor.Document.{
  Document, editor_columns, insert_character, delete_character, split_line, join_with_previous_line,
}

-- The codes that `keyboard_getchar` returns for the keys that the editor knows, as bytes.
abbrev pub key_f1 : ℕ
key_f1 = 0xCD

abbrev pub key_f2 : ℕ
key_f2 = 0xBA

abbrev pub key_f3 : ℕ
key_f3 = 0xC9

abbrev pub key_arrow_up : ℕ
key_arrow_up = 0xF0

abbrev pub key_arrow_down : ℕ
key_arrow_down = 0xF1

abbrev pub key_arrow_left : ℕ
key_arrow_left = 0xF2

abbrev pub key_arrow_right : ℕ
key_arrow_right = 0xF3

-- The static variables of the file, and the cursor of `myeditor`. `status` is the text that
-- `show_status` wrote last, with its colour.
pub record Editor : Type 0 where
  pub doc : Document
  pub open doc use *
  pub current_filename : List ℕ
  pub has_filename : Bool
  pub has_unsaved_changes : Bool
  pub cursor_x : ℕ
  pub cursor_y : ℕ
  pub status : List ℕ × ℕ

-- Moving the cursor to a line takes it back to the line's end if that is nearer.
abbrev pub clamp_to_line : ℕ → Editor → Editor
clamp_to_line y ed = record ed {
  cursor_y = y;
  cursor_x = if ltb (ed.line_lengths y) ed.cursor_x then ed.line_lengths y else ed.cursor_x;
}

unfoldable pub arrow_up : Editor → Editor
arrow_up ed = if ltb 0 ed.cursor_y then clamp_to_line (ed.cursor_y - 1) ed else ed

unfoldable pub arrow_down : Editor → Editor
arrow_down ed =
    if ltb (ed.cursor_y + 1) ed.line_count then clamp_to_line (ed.cursor_y + 1) ed else ed

unfoldable pub arrow_left : Editor → Editor
arrow_left ed =
    if ltb 0 ed.cursor_x
    then record ed { cursor_x = ed.cursor_x - 1 }
    else if ltb 0 ed.cursor_y
    then record ed { cursor_y = ed.cursor_y - 1; cursor_x = ed.line_lengths (ed.cursor_y - 1) }
    else ed

unfoldable pub arrow_right : Editor → Editor
arrow_right ed =
    if ltb ed.cursor_x (ed.line_lengths ed.cursor_y)
    then record ed { cursor_x = ed.cursor_x + 1 }
    else if ltb (ed.cursor_y + 1) ed.line_count
    then record ed { cursor_y = ed.cursor_y + 1; cursor_x = 0 }
    else ed

-- Backspace deletes before the cursor; at the start of a line it joins the line to the previous
-- one, if the two fit, and puts the cursor at that line's new end.
unfoldable pub backspace : Editor → Editor
backspace ed =
    if ltb 0 ed.cursor_x
    then record ed {
      cursor_x = ed.cursor_x - 1;
      doc = delete_character ed.cursor_y (ed.cursor_x - 1) ed.doc;
      has_unsaved_changes = true;
    }
    else if ltb 0 ed.cursor_y && (join_with_previous_line ed.cursor_y ed.doc).0
    then record ed {
      doc = (join_with_previous_line ed.cursor_y ed.doc).1;
      cursor_y = ed.cursor_y - 1;
      cursor_x = (join_with_previous_line ed.cursor_y ed.doc).1.line_lengths (ed.cursor_y - 1);
      has_unsaved_changes = true;
    }
    else ed

unfoldable pub enter : Editor → Editor
enter ed =
    if (split_line ed.cursor_y ed.cursor_x ed.doc).0
    then record ed {
      doc = (split_line ed.cursor_y ed.cursor_x ed.doc).1;
      cursor_y = ed.cursor_y + 1;
      cursor_x = 0;
      has_unsaved_changes = true;
    }
    else ed

unfoldable pub type_character : ℕ → Editor → Editor
type_character key ed =
    if ltb (ed.line_lengths ed.cursor_y) editor_columns
    then record ed {
      doc = insert_character ed.cursor_y ed.cursor_x key ed.doc;
      cursor_x = ed.cursor_x + 1;
      has_unsaved_changes = true;
    }
    else ed

-- The keys other than F1, F2 and F3. `char` is signed, so the codes from 128 on are below 32.
unfoldable pub edit_key : ℕ → Editor → Editor
edit_key key ed =
    if key == key_arrow_up
    then arrow_up ed
    else if key == key_arrow_down
    then arrow_down ed
    else if key == key_arrow_left
    then arrow_left ed
    else if key == key_arrow_right
    then arrow_right ed
    else if key == 8
    then backspace ed
    else if key == 10 || key == 13
    then enter ed
    else if leb 32 key && leb key 126
    then type_character key ed
    else ed
