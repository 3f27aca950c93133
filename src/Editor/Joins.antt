-- ===== src/Editor/Joins.antt =====
-- What `join_with_previous_line` of src/programs/myeditor/myeditor.c does to the list of the lines.
use my_dos.Base.{
  ℕ, suc, ◌+◌, ◌-◌, ◌≤◌, ◌<◌, ◌&&◌, ◌≡◌, refl, ap, ◌∙◌, arith, ltb, leb, ◌==◌, true, if◌then◌else◌,
  tabulate, tabulate-congr, tabulate-append, ◌++◌,
}
use my_dos.Base.Tables.{join_at, tabulate-join_at}
use my_dos.Editor.Document.{Document, append_to_previous, editor_columns, join_with_previous_line}
use my_dos.Editor.Cells.{
  copy_cells_lem, line_lengths-close_gap, cells-close_gap, line_count-close_gap,
}
use my_dos.Editor.Lines.{line, lines, line-congr}

module _ (row : ℕ) (doc : Document) where
  line_count-append_to_previous : (append_to_previous (suc row) doc).line_count ≡ doc.line_count
  unfolding append_to_previous
  line_count-append_to_previous = refl

  line_lengths-append_to_previous :
      (y : ℕ)
      → (append_to_previous (suc row) doc).line_lengths y ≡ (
          if y == row
          then doc.line_lengths row + doc.line_lengths (suc row)
          else doc.line_lengths y)
  unfolding append_to_previous
  line_lengths-append_to_previous y = ground arith

  cells-append_to_previous :
      (y x : ℕ)
      → (append_to_previous (suc row) doc).cells y x ≡ (
          if y == row
            && leb (doc.line_lengths row) x
            && ltb x (doc.line_lengths row + doc.line_lengths (suc row))
          then doc.cells (suc row) (x - doc.line_lengths row)
          else doc.cells y x)
  unfolding append_to_previous
  cells-append_to_previous y x = ground (
    arith,
    copy_cells_lem (doc.line_lengths (suc row)) (suc row - 1) (doc.line_lengths (suc row - 1))
        (suc row) 0 doc.cells y x (omega arith),
  )

-- The code joins the line `suc row` to the line `row` if both fit into one.
module _ (row : ℕ) (doc : Document)
    (fits : doc.line_lengths row + doc.line_lengths (suc row) ≤ editor_columns) where
  pub flag-join_with_previous_line : (join_with_previous_line (suc row) doc).0 ≡ true
  unfolding join_with_previous_line
  flag-join_with_previous_line = ground arith

  pub line_count-join_with_previous_line :
      (join_with_previous_line (suc row) doc).1.line_count ≡ doc.line_count - 1
  unfolding join_with_previous_line append_to_previous
  line_count-join_with_previous_line = ground (
    arith,
    line_count-close_gap (doc.line_count - 1 - suc row) (suc row)
        (append_to_previous (suc row) doc),
  )

  pub line_lengths-join_with_previous_line :
      (y : ℕ)
      → suc row < doc.line_count
      → (join_with_previous_line (suc row) doc).1.line_lengths y ≡ (
          if y == doc.line_count - 1
          then 0
          else if y == row
          then doc.line_lengths row + doc.line_lengths (suc row)
          else if ltb row y && ltb y (doc.line_count - 1)
          then doc.line_lengths (y + 1)
          else doc.line_lengths y)
  unfolding join_with_previous_line
  line_lengths-join_with_previous_line y hr = ground (
    arith,
    line_count-close_gap (doc.line_count - 1 - suc row) (suc row)
        (append_to_previous (suc row) doc),
    line_lengths-close_gap (doc.line_count - 1 - suc row) (suc row)
        (append_to_previous (suc row) doc) y,
    line_lengths-append_to_previous row doc y,
    line_lengths-append_to_previous row doc (y + 1),
    line_count-append_to_previous row doc,
  )

  pub cells-join_with_previous_line :
      (y x : ℕ)
      → suc row < doc.line_count
      → (join_with_previous_line (suc row) doc).1.cells y x ≡ (
          if ltb row y && ltb y (doc.line_count - 1) && ltb x (doc.line_lengths (y + 1))
          then doc.cells (y + 1) x
          else if y == row
              && leb (doc.line_lengths row) x
              && ltb x (doc.line_lengths row + doc.line_lengths (suc row))
          then doc.cells (suc row) (x - doc.line_lengths row)
          else doc.cells y x)
  unfolding join_with_previous_line
  cells-join_with_previous_line y x hr = ground (
    arith,
    cells-close_gap (doc.line_count - 1 - suc row) (suc row) (append_to_previous (suc row) doc) y x,
    line_lengths-append_to_previous row doc (y + 1),
    cells-append_to_previous row doc y x,
    cells-append_to_previous row doc (y + 1) x,
  )

-- If the two lines fit into one, joining appends the line to the one above and leaves the other
-- lines.
pub lines-join_with_previous_line :
    (row : ℕ) (doc : Document)
    → suc row < doc.line_count
    → doc.line_lengths row + doc.line_lengths (suc row) ≤ editor_columns
    → lines (join_with_previous_line (suc row) doc).1 ≡ join_at row (lines doc)
lines-join_with_previous_line row doc hr fits =
    ap (λ n. tabulate n (line new)) (line_count-join_with_previous_line row doc fits)
    ∙ tabulate-join_at (doc.line_count - 1) row (line new) (line doc) (omega arith)
        (λ i l.
          line-congr doc new i i (ground (arith, lengths i)) (λ x m. ground (arith, cells i x)))
        (tabulate-append (doc.line_lengths row) (doc.line_lengths (suc row)) (new.line_lengths row)
            (new.cells row) (doc.cells (suc row)) (ground (arith, lengths row))
            (λ x l. ground (arith, cells row (doc.line_lengths row + x)))
          ∙ ap (λ l. l ++ line doc (suc row))
              (tabulate-congr (doc.line_lengths row) (new.cells row) (doc.cells row)
                (λ x l. ground (arith, cells row x))))
        (λ i l m.
          line-congr doc new (suc i) i (ground (arith, lengths i))
            (λ x k. ground (arith, cells i x)))
    ∙ ap (λ n. join_at row (tabulate n (line doc))) {x = suc (doc.line_count - 1)}
        {y = doc.line_count} (omega arith)
  where
    new : Document
    new = (join_with_previous_line (suc row) doc).1

    lengths :
        (y : ℕ)
        → new.line_lengths y ≡ (
            if y == doc.line_count - 1
            then 0
            else if y == row
            then doc.line_lengths row + doc.line_lengths (suc row)
            else if ltb row y && ltb y (doc.line_count - 1)
            then doc.line_lengths (y + 1)
            else doc.line_lengths y)
    lengths y = line_lengths-join_with_previous_line row doc fits y hr

    cells :
        (y x : ℕ)
        → new.cells y x ≡ (
            if ltb row y && ltb y (doc.line_count - 1) && ltb x (doc.line_lengths (y + 1))
            then doc.cells (y + 1) x
            else if y == row
                && leb (doc.line_lengths row) x
                && ltb x (doc.line_lengths row + doc.line_lengths (suc row))
            then doc.cells (suc row) (x - doc.line_lengths row)
            else doc.cells y x)
    cells y x = cells-join_with_previous_line row doc fits y x hr
