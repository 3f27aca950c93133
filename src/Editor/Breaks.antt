-- ===== src/Editor/Breaks.antt =====
-- What `split_line` of src/programs/myeditor/myeditor.c does to the list of the lines.
use my_dos.Base.{
  ℕ, suc, ◌+◌, ◌-◌, ◌≤◌, ◌<◌, ◌&&◌, ◌≡◌, ap, ◌∙◌, arith, ltb, leb, ◌==◌, true, if◌then◌else◌,
  tabulate,
}
use my_dos.Base.Tables.{tabulate-take, tabulate-drop, split_at, tabulate-split_at}
use my_dos.Editor.Document.{Document, editor_rows, open_gap, split_line}
use my_dos.Editor.Cells.{copy_cells_lem, line_lengths-open_gap, cells-open_gap, line_count-open_gap}
use my_dos.Editor.Lines.{line, lines, line-congr}

module _ (row column : ℕ) (doc : Document) (room : doc.line_count < editor_rows) where
  pub flag-split_line : (split_line row column doc).0 ≡ true
  unfolding split_line
  flag-split_line = ground arith

  pub line_count-split_line : (split_line row column doc).1.line_count ≡ doc.line_count + 1
  unfolding split_line
  line_count-split_line = ground (arith, line_count-open_gap (doc.line_count - (row + 1)) row doc)

  pub line_lengths-split_line :
      (y : ℕ)
      → row < doc.line_count
      → (split_line row column doc).1.line_lengths y ≡ (
          if y == row
          then column
          else if y == row + 1
          then doc.line_lengths row - column
          else if ltb (row + 1) y && leb y doc.line_count
          then doc.line_lengths (y - 1)
          else doc.line_lengths y)
  unfolding split_line
  line_lengths-split_line y hr = ground (
    arith,
    line_lengths-open_gap (doc.line_count - (row + 1)) row doc y,
    line_lengths-open_gap (doc.line_count - (row + 1)) row doc row,
  )

  pub cells-split_line :
      (y x : ℕ)
      → row < doc.line_count
      → (split_line row column doc).1.cells y x ≡ (
          if y == row + 1 && ltb x (doc.line_lengths row - column)
          then doc.cells row (column + x)
          else if ltb (row + 1) y && leb y doc.line_count && ltb x (doc.line_lengths (y - 1))
          then doc.cells (y - 1) x
          else doc.cells y x)
  unfolding split_line
  cells-split_line y x hr = ground (
    arith,
    line_lengths-open_gap (doc.line_count - (row + 1)) row doc row,
    cells-open_gap (doc.line_count - (row + 1)) row doc y x,
    cells-open_gap (doc.line_count - (row + 1)) row doc row (column + x),
    copy_cells_lem (doc.line_lengths row - column) (row + 1) 0 row column
        (open_gap (doc.line_count - (row + 1)) row doc).cells y x (omega arith),
  )

-- With room for another line, splitting cuts the line at the column and leaves the other lines.
pub lines-split_line :
    (row column : ℕ) (doc : Document)
    → doc.line_count < editor_rows
    → row < doc.line_count
    → column ≤ doc.line_lengths row
    → lines (split_line row column doc).1 ≡ split_at row column (lines doc)
lines-split_line row column doc room hr hc =
    ap (λ n. tabulate n (line new)) {y = suc doc.line_count}
      (omega (arith, line_count-split_line row column doc room))
    ∙ tabulate-split_at doc.line_count row column (line new) (line doc) hr
        (λ i l.
          line-congr doc new i i (ground (arith, lengths i)) (λ x m. ground (arith, cells i x)))
        (ap (λ n. tabulate n (new.cells row)) (ground (arith, lengths row))
          ∙ tabulate-take (doc.line_lengths row) column (new.cells row) (doc.cells row) hc
              (λ x l. ground (arith, cells row x)))
        (ap (λ n. tabulate n (new.cells (suc row))) (ground (arith, lengths (suc row)))
          ∙ tabulate-drop (doc.line_lengths row) column (doc.line_lengths row - column)
              (new.cells (suc row)) (doc.cells row) (omega arith)
              (λ x l. ground (arith, cells (suc row) x)))
        (λ i l m.
          line-congr doc new i (suc i) (ground (arith, lengths (suc i)))
            (λ x k. ground (arith, cells (suc i) x)))
  where
    new : Document
    new = (split_line row column doc).1

    lengths :
        (y : ℕ)
        → new.line_lengths y ≡ (
            if y == row
            then column
            else if y == row + 1
            then doc.line_lengths row - column
            else if ltb (row + 1) y && leb y doc.line_count
            then doc.line_lengths (y - 1)
            else doc.line_lengths y)
    lengths y = line_lengths-split_line row column doc room y hr

    cells :
        (y x : ℕ)
        → new.cells y x ≡ (
            if y == row + 1 && ltb x (doc.line_lengths row - column)
            then doc.cells row (column + x)
            else if ltb (row + 1) y && leb y doc.line_count && ltb x (doc.line_lengths (y - 1))
            then doc.cells (y - 1) x
            else doc.cells y x)
    cells y x = cells-split_line row column doc room y x hr
