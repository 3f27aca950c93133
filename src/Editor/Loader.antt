-- ===== src/Editor/Loader.antt =====
-- The scanner inside `load_document` of src/programs/myeditor/myeditor.c: what it does with each
-- byte of the file, and the bytes that `save_document` writes.
use my_dos.Base.{
  ℕ, ◌+◌, ◌||◌, Bool, true, false, List, [], ◌∷◌, ltb, leb, ◌==◌, if◌then◌else◌, tabulate,
}
use my_dos.Editor.Document.{Cells, put_cell, Lengths, put_length, editor_rows, editor_columns}

-- `editor_load_status`
pub data LoadStatus : Type 0 where
  load_ok too_large invalid_text filesystem_error : LoadStatus

abbrev pub is_load_ok : LoadStatus → Bool
is_load_ok load_ok = true
is_load_ok _ = false

-- The static load buffer and the local variables of `load_document`.
pub record Loader : Type 0 where
  pub load_buffer : Cells
  pub load_line_lengths : Lengths
  pub row : ℕ
  pub column : ℕ
  pub loaded_line_count : ℕ
  pub pending_newline : Bool
  pub status : LoadStatus

-- The buffer is cleared and the variables are initialised.
abbrev pub start : Loader
start = record {
  load_buffer = λ y x. 0;
  load_line_lengths = λ y. 0;
  row = 0;
  column = 0;
  loaded_line_count = 1;
  pending_newline = false;
  status = load_ok;
}

-- `row++; column = 0; loaded_line_count = row + 1;` unless the rows are used up.
unfoldable pub next_row : Loader → Loader
next_row s =
    if leb editor_rows (s.row + 1)
    then record s { status = too_large }
    else record s { row = s.row + 1; column = 0; loaded_line_count = s.row + 1 + 1 }

-- `load_buffer[row][column++] = character; load_line_lengths[row] = column;` unless the line is
-- full.
unfoldable pub store_character : ℕ → Loader → Loader
store_character character s =
    if leb editor_columns s.column then record s { status = too_large } else record s {
      load_buffer = put_cell s.load_buffer s.row s.column character;
      column = s.column + 1;
      load_line_lengths = put_length s.load_line_lengths s.row (s.column + 1);
    }

-- A newline: one that is pending already ends an empty line.
unfoldable pub load_newline : Loader → Loader
unfolding next_row
load_newline s =
    if s.pending_newline
    then record (next_row s) { pending_newline = true }
    else record s { pending_newline = true }

-- A character: only printable ASCII is accepted, and a pending newline is carried out first.
unfoldable pub load_character : ℕ → Loader → Loader
unfolding next_row store_character
load_character character s =
    if ltb character 32 || ltb 126 character
    then record s { status = invalid_text }
    else if s.pending_newline
    then if is_load_ok (next_row s).status
      then store_character character (record (next_row s) { pending_newline = false })
      else next_row s
    else store_character character s

-- One round of the loop over the bytes that were read. A loop left by `break` shows in the status.
unfoldable pub load_byte : ℕ → Loader → Loader
unfolding load_newline load_character
load_byte character s =
    if character == 13
    then s
    else if character == 10
    then load_newline s
    else load_character character s

unfoldable pub load_bytes : List ℕ → Loader → Loader
load_bytes [] s = s
load_bytes (b ∷ bs) s =
    let rest = load_bytes bs (load_byte b s) in
    if is_load_ok (load_byte b s).status then rest else load_byte b s

-- The lines that the loader has stored.
abbrev pub loaded_line : Loader → ℕ → List ℕ
loaded_line s y = tabulate (s.load_line_lengths y) (s.load_buffer y)

abbrev pub loaded_lines : Loader → List (List ℕ)
loaded_lines s = tabulate s.loaded_line_count (loaded_line s)
