-- ===== src/Editor/Lines.antt =====
-- The document as the list of its lines, and what each function of
-- src/programs/myeditor/myeditor.c does to that list.
use my_dos.Base.{
  ℕ, suc, ◌+◌, ◌-◌, ◌≤◌, ◌<◌, ◌&&◌, ◌≡◌, ◌≢◌, ap, ◌∙◌, arith, ltb, leb, ◌==◌, if◌then◌else◌, List,
  tabulate, tabulate-congr, insert_at, erase_at, modify_at,
}
use my_dos.Base.Tables.{tabulate-insert_at, tabulate-erase_at, tabulate-modify_at}
use my_dos.Editor.Document.{Document, editor_columns, insert_character, delete_character}
use my_dos.Editor.Cells.{shift_right_lem, shift_left_lem}

abbrev pub line : Document → ℕ → List ℕ
line doc y = tabulate (doc.line_lengths y) (doc.cells y)

abbrev pub lines : Document → List (List ℕ)
lines doc = tabulate doc.line_count (line doc)

-- Two lines are equal if they agree in length and in the cells below it.
pub line-congr :
    (doc doc' : Document) (y y' : ℕ)
    → doc'.line_lengths y' ≡ doc.line_lengths y
    → ((x : ℕ) → x < doc.line_lengths y → doc'.cells y' x ≡ doc.cells y x)
    → line doc' y' ≡ line doc y
line-congr doc doc' y y' e same =
    ap (λ n. tabulate n (doc'.cells y')) e
    ∙ tabulate-congr (doc.line_lengths y) (doc'.cells y') (doc.cells y) same

-- What the four functions leave in each length and in each cell.
module _ (row column character : ℕ) (doc : Document) where
  pub line_lengths-insert_character :
      (y : ℕ)
      → doc.line_lengths row < editor_columns
      → (insert_character row column character doc).line_lengths y
        ≡ (if y == row then doc.line_lengths row + 1 else doc.line_lengths y)
  unfolding insert_character
  line_lengths-insert_character y room = ground arith

  pub cells-insert_character :
      (y x : ℕ)
      → column ≤ doc.line_lengths row
      → doc.line_lengths row < editor_columns
      → (insert_character row column character doc).cells y x ≡ (
          if y == row && x == column
          then character
          else if y == row && ltb column x && leb x (doc.line_lengths row)
          then doc.cells y (x - 1)
          else doc.cells y x)
  unfolding insert_character
  cells-insert_character y x hc room =
      ground (arith, shift_right_lem (doc.line_lengths row - column) row column doc.cells y x)

  pub line_count-insert_character :
      (insert_character row column character doc).line_count ≡ doc.line_count
  unfolding insert_character
  line_count-insert_character = ground arith

module _ (row column : ℕ) (doc : Document) where
  pub cells-delete_character :
      (y x : ℕ)
      → column < doc.line_lengths row
      → (delete_character row column doc).cells y x ≡ (
          if y == row && leb column x && ltb (x + 1) (doc.line_lengths row)
          then doc.cells y (x + 1)
          else doc.cells y x)
  unfolding delete_character
  cells-delete_character y x hc =
      ground (arith, shift_left_lem (doc.line_lengths row - 1 - column) row column doc.cells y x)

-- Inserting into a line that has room inserts the character at the column and leaves the other
-- lines.
pub lines-insert_character :
    (row column character : ℕ) (doc : Document)
    → row < doc.line_count
    → column ≤ doc.line_lengths row
    → doc.line_lengths row < editor_columns
    → lines (insert_character row column character doc)
      ≡ modify_at row (insert_at column character) (lines doc)
lines-insert_character row column character doc hr hc room =
    ap (λ n. tabulate n (line new)) (line_count-insert_character row column character doc)
    ∙ tabulate-modify_at doc.line_count row (insert_at column character) (line new) (line doc) hr
        here other
  where
    new : Document
    new = insert_character row column character doc

    here : line new row ≡ insert_at column character (line doc row)
    here =
        ap (λ n. tabulate n (new.cells row)) {y = suc (doc.line_lengths row)}
          (ground (arith, line_lengths-insert_character row column character doc row room))
        ∙ tabulate-insert_at (doc.line_lengths row) column character (new.cells row) (doc.cells row)
            hc
            (λ i l. ground (arith, cells-insert_character row column character doc row i hc room))
            (ground (arith, cells-insert_character row column character doc row column hc room))
            (λ i l m.
              ground (arith, cells-insert_character row column character doc row (suc i) hc room))

    other : (i : ℕ) → i ≢ row → line new i ≡ line doc i
    other i ne =
        line-congr doc new i i
          (ground (arith, line_lengths-insert_character row column character doc i room))
          (λ x l. ground (arith, cells-insert_character row column character doc i x hc room))

-- Deleting within a line erases the character at the column and leaves the other lines.
pub lines-delete_character :
    (row column : ℕ) (doc : Document)
    → row < doc.line_count
    → column < doc.line_lengths row
    → lines (delete_character row column doc) ≡ modify_at row (erase_at column) (lines doc)
unfolding delete_character
lines-delete_character row column doc hr hc =
    tabulate-modify_at doc.line_count row (erase_at column) (line new) (line doc) hr here other
  where
    new : Document
    new = delete_character row column doc

    here : line new row ≡ erase_at column (line doc row)
    here =
        ap (λ n. tabulate n (new.cells row)) {y = doc.line_lengths row - 1} (ground arith)
        ∙ tabulate-erase_at (doc.line_lengths row - 1) column (new.cells row) (doc.cells row)
            (omega arith) (λ i l. ground (arith, cells-delete_character row column doc row i hc))
            (λ i l m. ground (arith, cells-delete_character row column doc row i hc))
        ∙ ap (λ n. erase_at column (tabulate n (doc.cells row)))
            {x = suc (doc.line_lengths row - 1)} {y = doc.line_lengths row} (omega arith)

    other : (i : ℕ) → i ≢ row → line new i ≡ line doc i
    other i ne =
        line-congr doc new i i (ground arith)
          (λ x l. ground (arith, cells-delete_character row column doc i x hc))
