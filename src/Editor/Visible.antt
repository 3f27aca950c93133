-- ===== src/Editor/Visible.antt =====
-- The editing functions of src/programs/myeditor/myeditor.c keep the document in a form that
-- `draw_document` can show.
use my_dos.Base.{ℕ, zero, suc, ◌+◌, ◌-◌, ◌≤◌, ◌<◌, ◌≡◌, sym, ap, subst, arith, dec_lt, dec_le}
use my_dos.Editor.Document.{
  Document, editor_rows, editor_columns, insert_character, delete_character, split_line,
  join_with_previous_line,
}
use my_dos.Editor.Session.{
  Editor, arrow_up, arrow_down, arrow_left, arrow_right, backspace, enter, type_character, edit_key,
}
use my_dos.Editor.Lines.{
  line_lengths-insert_character, line_count-insert_character, cells-insert_character,
  cells-delete_character,
}
use my_dos.Editor.Breaks.{line_count-split_line, line_lengths-split_line, cells-split_line}
use my_dos.Editor.Joins.{
  line_count-join_with_previous_line, line_lengths-join_with_previous_line,
  cells-join_with_previous_line,
}
use my_dos.Editor.Invariant.{IsValid, split_line-refused, join_with_previous_line-refused}
use my_dos.Editor.Drawing.{Printable}

insert_character-Printable :
    (row column character : ℕ) (doc : Document)
    → row < doc.line_count
    → column ≤ doc.line_lengths row
    → doc.line_lengths row < editor_columns
    → 0 < character
    → Printable doc
    → Printable (insert_character row column character doc)
insert_character-Printable row column character doc hr hc room pos p = record {
  below = λ y h. ground (
    arith,
    line_lengths-insert_character row column character doc y room,
    line_count-insert_character row column character doc,
    p.below y,
  );
  nonzero = λ y x h. ground (
    arith,
    line_lengths-insert_character row column character doc y room,
    cells-insert_character row column character doc y x hc room,
    p.nonzero y x,
    p.nonzero y (x - 1),
  );
}

delete_character-Printable :
    (row column : ℕ) (doc : Document)
    → column < doc.line_lengths row
    → Printable doc
    → Printable (delete_character row column doc)
unfolding delete_character
delete_character-Printable row column doc hc p = record {
  below = λ y h. ground (arith, p.below y);
  nonzero = λ y x h.
      ground
        (arith, cells-delete_character row column doc y x hc, p.nonzero y x, p.nonzero y (x + 1));
}

split_line-Printable :
    (row column : ℕ) (doc : Document)
    → row < doc.line_count
    → column ≤ doc.line_lengths row
    → Printable doc
    → Printable (split_line row column doc).1
split_line-Printable row column doc hr hc p = elim (dec_lt doc.line_count editor_rows) [
  | no full ↦
      subst Printable (sym (ap (λ r. r.1) (split_line-refused row column doc (omega arith)))) p
  | yes room ↦ record {
    below = λ y h. ground (
      arith,
      line_count-split_line row column doc room,
      line_lengths-split_line row column doc room y hr,
      p.below y,
    );
    nonzero = λ y x h. ground (
      arith,
      line_lengths-split_line row column doc room y hr,
      cells-split_line row column doc room y x hr,
      p.nonzero y x,
      p.nonzero (y - 1) x,
      p.nonzero row x,
      p.nonzero row (column + x),
    );
  }
]

join_with_previous_line-Printable :
    (row : ℕ) (doc : Document)
    → 0 < row
    → row < doc.line_count
    → Printable doc
    → Printable (join_with_previous_line row doc).1
join_with_previous_line-Printable zero doc pos hr p = absurd (omega arith)
join_with_previous_line-Printable (suc row) doc pos hr p =
    elim (dec_le (doc.line_lengths row + doc.line_lengths (suc row)) editor_columns) [
      | no full ↦
          subst Printable
            (sym (ap (λ r. r.1) (join_with_previous_line-refused (suc row) doc (ground arith)))) p
      | yes fits ↦ record {
        below = λ y h. ground (
          arith,
          line_count-join_with_previous_line row doc fits,
          line_lengths-join_with_previous_line row doc fits y hr,
          p.below y,
        );
        nonzero = λ y x h. ground (
          arith,
          line_lengths-join_with_previous_line row doc fits y hr,
          cells-join_with_previous_line row doc fits y x hr,
          p.nonzero y x,
          p.nonzero (y + 1) x,
          p.nonzero (suc row) (x - doc.line_lengths row),
        );
      }
    ]

arrow_up-doc : (ed : Editor) → (arrow_up ed).doc ≡ ed.doc
unfolding arrow_up
arrow_up-doc ed = ground arith

arrow_down-doc : (ed : Editor) → (arrow_down ed).doc ≡ ed.doc
unfolding arrow_down
arrow_down-doc ed = ground arith

arrow_left-doc : (ed : Editor) → (arrow_left ed).doc ≡ ed.doc
unfolding arrow_left
arrow_left-doc ed = ground arith

arrow_right-doc : (ed : Editor) → (arrow_right ed).doc ≡ ed.doc
unfolding arrow_right
arrow_right-doc ed = ground arith

backspace-Printable : (ed : Editor) → IsValid ed → Printable ed.doc → Printable (backspace ed).doc
unfolding backspace
backspace-Printable ed v p = ground (
  arith,
  p,
  λ (h : 0 < ed.cursor_x).
      delete_character-Printable ed.cursor_y (ed.cursor_x - 1) ed.doc (omega (arith, v.in_line)) p,
  λ (h : 0 < ed.cursor_y). join_with_previous_line-Printable ed.cursor_y ed.doc h v.on_line p,
)

enter-Printable : (ed : Editor) → IsValid ed → Printable ed.doc → Printable (enter ed).doc
unfolding enter
enter-Printable ed v p =
    ground (arith, p, split_line-Printable ed.cursor_y ed.cursor_x ed.doc v.on_line v.in_line p)

type_character-Printable :
    (key : ℕ) (ed : Editor)
    → 0 < key
    → IsValid ed
    → Printable ed.doc
    → Printable (type_character key ed).doc
unfolding type_character
type_character-Printable key ed pos v p = ground (
  arith,
  p,
  λ (room : ed.line_lengths ed.cursor_y < editor_columns).
      insert_character-Printable ed.cursor_y ed.cursor_x key ed.doc v.on_line v.in_line room pos p,
)

-- In a valid state, every key keeps the rows below the document empty and its visible characters
-- other than zero.
pub edit_key-Printable :
    (key : ℕ) (ed : Editor) → IsValid ed → Printable ed.doc → Printable (edit_key key ed).doc
unfolding edit_key
edit_key-Printable key ed v p = ground (
  arith,
  p,
  arrow_up-doc ed,
  arrow_down-doc ed,
  arrow_left-doc ed,
  arrow_right-doc ed,
  backspace-Printable ed v p,
  enter-Printable ed v p,
  λ (h : 0 < key). type_character-Printable key ed h v p,
)
