-- ===== src/Editor/Document.antt =====
-- The document of src/programs/myeditor/myeditor.c and the functions that change it:
-- `insert_character`, `delete_character`, `split_line` and `join_with_previous_line`.
use my_dos.Base.{
  ℕ, ◌+◌, ◌-◌, ◌&&◌, Bool, true, false, leb, ltb, ◌==◌, if◌then◌else◌, for_below, for_down,
}

abbrev pub editor_rows : ℕ
editor_rows = 21

abbrev pub editor_columns : ℕ
editor_columns = 78

-- `char document[EDITOR_ROWS][EDITOR_COLUMNS]`, by row and column. The array is a function, so a
-- write outside its bounds would be seen: the theorems on the operations exclude it.
abbrev pub Cells : Type 0
Cells = ℕ → ℕ → ℕ

abbrev pub put_cell : Cells → ℕ → ℕ → ℕ → Cells
put_cell d row column v y x = if y == row && x == column then v else d y x

-- `int line_lengths[EDITOR_ROWS]`. No length goes below 0 where the code is called.
abbrev pub Lengths : Type 0
Lengths = ℕ → ℕ

abbrev pub put_length : Lengths → ℕ → ℕ → Lengths
put_length l row v y = if y == row then v else l y

pub record Document : Type 0 where
  pub cells : Cells
  pub line_lengths : Lengths
  pub line_count : ℕ

-- for (x = 0; x < n; x++) document[row][to + x] = document[source][from + x];
unfoldable pub copy_cells : ℕ → ℕ → ℕ → ℕ → ℕ → Cells → Cells
copy_cells n row to source from = for_below n (λ x d. put_cell d row (to + x) (d source (from + x)))

-- for (x = column + n; x > column; x--) document[row][x] = document[row][x - 1];
unfoldable pub shift_right : ℕ → ℕ → ℕ → Cells → Cells
shift_right n row column = for_down n column (λ x d. put_cell d row x (d row (x - 1)))

-- for (x = column; x < column + n; x++) document[row][x] = document[row][x + 1];
unfoldable pub shift_left : ℕ → ℕ → ℕ → Cells → Cells
shift_left n row column = for_below n (λ x d. put_cell d row (column + x) (d row (column + x + 1)))

unfoldable pub insert_character : ℕ → ℕ → ℕ → Document → Document
insert_character row column character doc =
    if leb editor_columns (doc.line_lengths row) then doc else record doc {
      cells =
          put_cell (shift_right (doc.line_lengths row - column) row column doc.cells) row column
            character;
      line_lengths = put_length doc.line_lengths row (doc.line_lengths row + 1);
    }

-- Called at a column below the line's length, so the length is positive.
unfoldable pub delete_character : ℕ → ℕ → Document → Document
delete_character row column doc = record doc {
  cells = shift_left (doc.line_lengths row - 1 - column) row column doc.cells;
  line_lengths = put_length doc.line_lengths row (doc.line_lengths row - 1);
}

-- line_lengths[y] = line_lengths[from];
-- for (x = 0; x < line_lengths[y]; x++) document[y][x] = document[from][x];
unfoldable pub copy_line : ℕ → ℕ → Document → Document
unfolding copy_cells
copy_line y from doc = record doc {
  cells = copy_cells (doc.line_lengths from) y 0 from 0 doc.cells;
  line_lengths = put_length doc.line_lengths y (doc.line_lengths from);
}

-- for (y = row + 1 + n; y > row + 1; y--) the line above moves down to line y.
unfoldable pub open_gap : ℕ → ℕ → Document → Document
unfolding copy_line
open_gap n row = for_down n (row + 1) (λ y. copy_line y (y - 1))

-- for (y = row; y < row + n; y++) the line below moves up to line y.
unfoldable pub close_gap : ℕ → ℕ → Document → Document
unfolding copy_line
close_gap n row = for_below n (λ k. copy_line (row + k) (row + k + 1))

-- The flag is the C function's result.
unfoldable pub split_line : ℕ → ℕ → Document → Bool × Document
split_line row column doc =
    if leb editor_rows doc.line_count
    then (false, doc)
    else let moved = open_gap (doc.line_count - (row + 1)) row doc in
      let next_length = moved.line_lengths row - column in
      (
        true,
        record {
          cells = copy_cells next_length (row + 1) 0 row column moved.cells;
          line_lengths =
              put_length (put_length moved.line_lengths (row + 1) next_length) row column;
          line_count = moved.line_count + 1;
        },
      )

-- The first half of the join: the line is copied behind the previous one.
unfoldable pub append_to_previous : ℕ → Document → Document
unfolding copy_cells
append_to_previous row doc = record doc {
  cells = copy_cells (doc.line_lengths row) (row - 1) (doc.line_lengths (row - 1)) row 0 doc.cells;
  line_lengths =
      put_length doc.line_lengths (row - 1) (doc.line_lengths (row - 1) + doc.line_lengths row);
}

-- Called at a row above 0. The flag is the C function's result.
unfoldable pub join_with_previous_line : ℕ → Document → Bool × Document
join_with_previous_line row doc =
    if ltb editor_columns (doc.line_lengths (row - 1) + doc.line_lengths row)
    then (false, doc)
    else let closed = close_gap (doc.line_count - 1 - row) row (append_to_previous row doc) in
      (
        true,
        record closed {
          line_count = closed.line_count - 1;
          line_lengths = put_length closed.line_lengths (closed.line_count - 1) 0;
        },
      )
