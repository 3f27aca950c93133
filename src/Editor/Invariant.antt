-- ===== src/Editor/Invariant.antt =====
-- The invariant of the editor's state, src/programs/myeditor/myeditor.c: the document stays within
-- its arrays and the cursor within the document.
use my_dos.Base.{
  ℕ, zero, suc, ◌+◌, ◌-◌, ◌≤◌, ◌<◌, ◌≡◌, refl, sym, ap, subst, arith, true, false, dec_lt, dec_le,
}
use my_dos.Editor.Document.{
  Document, editor_rows, editor_columns, insert_character, delete_character, split_line,
  join_with_previous_line,
}
use my_dos.Editor.Session.{
  Editor, arrow_up, arrow_down, arrow_left, arrow_right, backspace, enter, type_character, edit_key,
}
use my_dos.Editor.Lines.{line_lengths-insert_character, line_count-insert_character}
use my_dos.Editor.Breaks.{line_count-split_line, line_lengths-split_line}
use my_dos.Editor.Joins.{line_count-join_with_previous_line, line_lengths-join_with_previous_line}

-- Every visible line fits its row of the array, and there is a line.
pub record Fits (doc : Document) : Type 0 where
  pub some_line : 1 ≤ doc.line_count
  pub rows : doc.line_count ≤ editor_rows
  pub columns : (y : ℕ) → doc.line_lengths y ≤ editor_columns

pub record IsValid (ed : Editor) : Type 0 where
  pub fits : Fits ed.doc
  pub on_line : ed.cursor_y < ed.line_count
  pub in_line : ed.cursor_x ≤ ed.line_lengths ed.cursor_y

insert_character-Fits :
    (row column character : ℕ) (doc : Document)
    → Fits doc
    → Fits (insert_character row column character doc)
unfolding insert_character
insert_character-Fits row column character doc f = record {
  some_line = ground (arith, f.some_line);
  rows = ground (arith, f.rows);
  columns = λ y. ground (arith, f.columns y, f.columns row);
}

delete_character-Fits :
    (row column : ℕ) (doc : Document) → Fits doc → Fits (delete_character row column doc)
unfolding delete_character
delete_character-Fits row column doc f = record {
  some_line = f.some_line;
  rows = f.rows;
  columns = λ y. ground (arith, f.columns y, f.columns row);
}

pub split_line-refused :
    (row column : ℕ) (doc : Document)
    → editor_rows ≤ doc.line_count
    → split_line row column doc ≡ (false, doc)
unfolding split_line
split_line-refused row column doc h = ground arith

pub join_with_previous_line-refused :
    (row : ℕ) (doc : Document)
    → editor_columns < doc.line_lengths (row - 1) + doc.line_lengths row
    → join_with_previous_line row doc ≡ (false, doc)
unfolding join_with_previous_line
join_with_previous_line-refused row doc h = ground arith

split_line-Fits :
    (row column : ℕ) (doc : Document)
    → row < doc.line_count
    → column ≤ doc.line_lengths row
    → Fits doc
    → Fits (split_line row column doc).1
split_line-Fits row column doc hr hc f = elim (dec_lt doc.line_count editor_rows) [
  | no full ↦ subst Fits (sym (ap (λ r. r.1) (split_line-refused row column doc (omega arith)))) f
  | yes room ↦ record {
    some_line = omega (arith, line_count-split_line row column doc room);
    rows = omega (arith, line_count-split_line row column doc room);
    columns = λ y. ground (
      arith,
      line_lengths-split_line row column doc room y hr,
      f.columns y,
      f.columns (y - 1),
      f.columns row,
    );
  }
]

join_with_previous_line-Fits :
    (row : ℕ) (doc : Document)
    → 0 < row
    → row < doc.line_count
    → Fits doc
    → Fits (join_with_previous_line row doc).1
join_with_previous_line-Fits zero doc pos hr f = absurd (omega arith)
join_with_previous_line-Fits (suc row) doc pos hr f =
    elim (dec_le (doc.line_lengths row + doc.line_lengths (suc row)) editor_columns) [
      | no full ↦
          subst Fits
            (sym (ap (λ r. r.1) (join_with_previous_line-refused (suc row) doc (ground arith)))) f
      | yes fits ↦ record {
        some_line = omega (arith, line_count-join_with_previous_line row doc fits);
        rows = omega (arith, line_count-join_with_previous_line row doc fits, f.rows);
        columns = λ y. ground (
          arith,
          line_lengths-join_with_previous_line row doc fits y hr,
          f.columns y,
          f.columns (y + 1),
        );
      }
    ]

line_count-joined :
    (row : ℕ) (doc : Document)
    → 0 < row
    → (join_with_previous_line row doc).0 ≡ true
    → (join_with_previous_line row doc).1.line_count ≡ doc.line_count - 1
line_count-joined zero doc pos h = absurd (omega arith)
line_count-joined (suc row) doc pos h =
    elim (dec_le (doc.line_lengths row + doc.line_lengths (suc row)) editor_columns) [
      | no full ↦ ground (arith, join_with_previous_line-refused (suc row) doc)
      | yes fits ↦ line_count-join_with_previous_line row doc fits
    ]

arrow_up-IsValid : (ed : Editor) → IsValid ed → IsValid (arrow_up ed)
unfolding arrow_up
arrow_up-IsValid ed v = record {
  fits = ground (arith, v.fits);
  on_line = ground arith;
  in_line = ground arith;
}

arrow_down-IsValid : (ed : Editor) → IsValid ed → IsValid (arrow_down ed)
unfolding arrow_down
arrow_down-IsValid ed v = record {
  fits = ground (arith, v.fits);
  on_line = ground arith;
  in_line = ground arith;
}

arrow_left-IsValid : (ed : Editor) → IsValid ed → IsValid (arrow_left ed)
unfolding arrow_left
arrow_left-IsValid ed v = record {
  fits = ground (arith, v.fits);
  on_line = ground arith;
  in_line = ground arith;
}

arrow_right-IsValid : (ed : Editor) → IsValid ed → IsValid (arrow_right ed)
unfolding arrow_right
arrow_right-IsValid ed v = record {
  fits = ground (arith, v.fits);
  on_line = ground arith;
  in_line = ground arith;
}

line_count-delete_character :
    (row column : ℕ) (doc : Document)
    → (delete_character row column doc).line_count ≡ doc.line_count
unfolding delete_character
line_count-delete_character row column doc = refl

pub line_lengths-delete_character :
    (row column : ℕ) (doc : Document)
    → (delete_character row column doc).line_lengths row ≡ doc.line_lengths row - 1
unfolding delete_character
line_lengths-delete_character row column doc = ground arith

backspace-IsValid : (ed : Editor) → IsValid ed → IsValid (backspace ed)
unfolding backspace
backspace-IsValid ed v =
    let y = ed.cursor_y in
    let x = ed.cursor_x - 1 in
    record {
      fits = ground (
        arith,
        v.fits,
        delete_character-Fits y x ed.doc v.fits,
        λ (p : 0 < y). join_with_previous_line-Fits y ed.doc p v.on_line v.fits,
      );
      on_line = ground (arith, line_count-joined y ed.doc, line_count-delete_character y x ed.doc);
      in_line = ground (arith, line_lengths-delete_character y x ed.doc);
    }

enter-IsValid : (ed : Editor) → IsValid ed → IsValid (enter ed)
unfolding enter
enter-IsValid ed v =
    let y = ed.cursor_y in
    let x = ed.cursor_x in
    record {
      fits = ground (arith, v.fits, split_line-Fits y x ed.doc v.on_line v.in_line v.fits);
      on_line = ground (arith, split_line-refused y x ed.doc, line_count-split_line y x ed.doc);
      in_line = ground arith;
    }

type_character-IsValid : (key : ℕ) (ed : Editor) → IsValid ed → IsValid (type_character key ed)
unfolding type_character
type_character-IsValid key ed v =
    let y = ed.cursor_y in
    let x = ed.cursor_x in
    record {
      fits = ground (arith, v.fits, insert_character-Fits y x key ed.doc v.fits);
      on_line = ground (arith, line_count-insert_character y x key ed.doc);
      in_line = ground (arith, line_lengths-insert_character y x key ed.doc y);
    }

-- Every key keeps the document within its arrays and the cursor within the document.
pub edit_key-IsValid : (key : ℕ) (ed : Editor) → IsValid ed → IsValid (edit_key key ed)
unfolding edit_key
edit_key-IsValid key ed v = ground (
  arith,
  v,
  arrow_up-IsValid ed v,
  arrow_down-IsValid ed v,
  arrow_left-IsValid ed v,
  arrow_right-IsValid ed v,
  backspace-IsValid ed v,
  enter-IsValid ed v,
  type_character-IsValid key ed v,
)
