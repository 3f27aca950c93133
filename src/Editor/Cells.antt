-- ===== src/Editor/Cells.antt =====
-- What the loops of src/programs/myeditor/myeditor.c leave in each cell and each length.
use my_dos.Base.{ℕ, zero, suc, ◌+◌, ◌-◌, ◌&&◌, ◌≡◌, ◌≢◌, refl, arith, ltb, leb, ◌==◌, if◌then◌else◌}
use my_dos.Editor.Document.{
  Cells, put_cell, Document, copy_cells, shift_right, shift_left, copy_line, open_gap, close_gap,
}

pub copy_cells_lem :
    (n row to source from : ℕ) (d : Cells) (y x : ℕ)
    → row ≢ source
    → copy_cells n row to source from d y x
      ≡ (if y == row && leb to x && ltb x (to + n) then d source (from + (x - to)) else d y x)
unfolding copy_cells
copy_cells_lem zero row to source from d y x ne = ground arith
copy_cells_lem (suc n) row to source from d y x ne = ground (
  arith,
  copy_cells_lem n row to source from d y x ne,
  copy_cells_lem n row to source from d source (from + n) ne,
)

pub shift_right_lem :
    (n row column : ℕ) (d : Cells) (y x : ℕ)
    → shift_right n row column d y x
      ≡ (if y == row && ltb column x && leb x (column + n) then d y (x - 1) else d y x)
unfolding shift_right
shift_right_lem zero row column d y x = ground arith
shift_right_lem (suc n) row column d y x = ground (
  arith,
  shift_right_lem n row column (put_cell d row (column + suc n) (d row (column + suc n - 1))) y x,
)

pub shift_left_lem :
    (n row column : ℕ) (d : Cells) (y x : ℕ)
    → shift_left n row column d y x
      ≡ (if y == row && leb column x && ltb x (column + n) then d y (x + 1) else d y x)
unfolding shift_left
shift_left_lem zero row column d y x = ground arith
shift_left_lem (suc n) row column d y x =
    ground
      (arith, shift_left_lem n row column d y x, shift_left_lem n row column d row (column + n + 1))

pub line_lengths-copy_line :
    (y from : ℕ) (doc : Document) (j : ℕ)
    → (copy_line y from doc).line_lengths j
      ≡ (if j == y then doc.line_lengths from else doc.line_lengths j)
unfolding copy_line
line_lengths-copy_line y from doc j = refl

pub cells-copy_line :
    (y from : ℕ) (doc : Document) (j x : ℕ)
    → y ≢ from
    → (copy_line y from doc).cells j x
      ≡ (if j == y && ltb x (doc.line_lengths from) then doc.cells from x else doc.cells j x)
unfolding copy_line
cells-copy_line y from doc j x ne =
    ground (arith, copy_cells_lem (doc.line_lengths from) y 0 from 0 doc.cells j x ne)

pub line_lengths-open_gap :
    (n row : ℕ) (doc : Document) (j : ℕ)
    → (open_gap n row doc).line_lengths j ≡ (
        if ltb (row + 1) j && leb j (row + 1 + n)
        then doc.line_lengths (j - 1)
        else doc.line_lengths j)
unfolding open_gap
line_lengths-open_gap zero row doc j = ground arith
line_lengths-open_gap (suc n) row doc j = ground (
  arith,
  line_lengths-open_gap n row (copy_line (row + 1 + suc n) (row + 1 + suc n - 1) doc) j,
  line_lengths-copy_line (row + 1 + suc n) (row + 1 + suc n - 1) doc j,
  line_lengths-copy_line (row + 1 + suc n) (row + 1 + suc n - 1) doc (j - 1),
)

pub cells-open_gap :
    (n row : ℕ) (doc : Document) (j x : ℕ)
    → (open_gap n row doc).cells j x ≡ (
        if ltb (row + 1) j && leb j (row + 1 + n) && ltb x (doc.line_lengths (j - 1))
        then doc.cells (j - 1) x
        else doc.cells j x)
unfolding open_gap
cells-open_gap zero row doc j x = ground arith
cells-open_gap (suc n) row doc j x = ground (
  arith,
  cells-open_gap n row (copy_line (row + 1 + suc n) (row + 1 + suc n - 1) doc) j x,
  line_lengths-copy_line (row + 1 + suc n) (row + 1 + suc n - 1) doc (j - 1),
  cells-copy_line (row + 1 + suc n) (row + 1 + suc n - 1) doc j x,
  cells-copy_line (row + 1 + suc n) (row + 1 + suc n - 1) doc (j - 1) x,
)

pub line_count-open_gap :
    (n row : ℕ) (doc : Document) → (open_gap n row doc).line_count ≡ doc.line_count
unfolding open_gap
line_count-open_gap zero row doc = refl
line_count-open_gap (suc n) row doc =
    line_count-open_gap n row (copy_line (row + 1 + suc n) (row + 1 + suc n - 1) doc)

pub line_lengths-close_gap :
    (n row : ℕ) (doc : Document) (j : ℕ)
    → (close_gap n row doc).line_lengths j
      ≡ (if leb row j && ltb j (row + n) then doc.line_lengths (j + 1) else doc.line_lengths j)
unfolding close_gap
line_lengths-close_gap zero row doc j = ground arith
line_lengths-close_gap (suc n) row doc j = ground (
  arith,
  line_lengths-copy_line (row + n) (row + n + 1) (close_gap n row doc) j,
  line_lengths-close_gap n row doc j,
  line_lengths-close_gap n row doc (row + n + 1),
)

pub cells-close_gap :
    (n row : ℕ) (doc : Document) (j x : ℕ)
    → (close_gap n row doc).cells j x ≡ (
        if leb row j && ltb j (row + n) && ltb x (doc.line_lengths (j + 1))
        then doc.cells (j + 1) x
        else doc.cells j x)
unfolding close_gap
cells-close_gap zero row doc j x = ground arith
cells-close_gap (suc n) row doc j x = ground (
  arith,
  cells-copy_line (row + n) (row + n + 1) (close_gap n row doc) j x,
  cells-close_gap n row doc j x,
  cells-close_gap n row doc (row + n + 1) x,
  line_lengths-close_gap n row doc (row + n + 1),
)

pub line_count-close_gap :
    (n row : ℕ) (doc : Document) → (close_gap n row doc).line_count ≡ doc.line_count
unfolding close_gap copy_line
line_count-close_gap zero row doc = refl
line_count-close_gap (suc n) row doc = line_count-close_gap n row doc
