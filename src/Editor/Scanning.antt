-- ===== src/Editor/Scanning.antt =====
-- The state of the scanner of `load_document`, src/programs/myeditor/myeditor.c, and its steps.
use my_dos.Base.{
  ℕ, ◌+◌, ◌-◌, ◌≤◌, ◌<◌, ◌≡◌, ◌≢◌, refl, sym, ap, ◌∙◌, arith, true, List, [], ◌∷◌, ◌++◌, ◌==◌,
  if◌then◌else◌, tabulate, tabulate-congr, length, modify_at, length-tabulate, tabulate-append,
}
use my_dos.Base.Tables.{tabulate-modify_at}
use my_dos.Editor.Document.{put_cell, put_length, editor_rows, editor_columns}
use my_dos.Editor.Loader.{
  Loader, start, next_row, store_character, is_load_ok, loaded_line, loaded_lines,
}

abbrev pub append_last : ℕ → List (List ℕ) → List (List ℕ)
append_last c ls = modify_at (length ls - 1) (λ l. l ++ c ∷ []) ls

unfoldable pub add_byte : ℕ → List (List ℕ) → List (List ℕ)
add_byte c ls = if c == 13 then ls else if c == 10 then ls ++ ([] ∷ []) else append_last c ls

unfoldable pub add_bytes : List ℕ → List (List ℕ) → List (List ℕ)
add_bytes [] ls = ls
add_bytes (c ∷ cs) ls = add_bytes cs (add_byte c ls)

-- The text that the loader has seen: a newline that is pending has opened a line that is not yet
-- stored.
abbrev pub seen : Loader → List (List ℕ)
seen s = if s.pending_newline then loaded_lines s ++ ([] ∷ []) else loaded_lines s

-- The loader's variables agree with its buffer, and it stays within the document's size.
pub record IsValid (s : Loader) : Type 0 where
  pub count : s.loaded_line_count ≡ s.row + 1
  pub row_in : s.row < editor_rows
  pub here : s.column ≡ s.load_line_lengths s.row
  pub column_in : s.column ≤ editor_columns
  pub widths : (y : ℕ) → s.load_line_lengths y ≤ editor_columns
  pub fresh : (y : ℕ) → s.row < y → s.load_line_lengths y ≡ 0

pub start-IsValid : IsValid start
start-IsValid = record {
  count = refl;
  row_in = omega arith;
  here = refl;
  column_in = omega arith;
  widths = λ y. omega arith;
  fresh = λ y h. refl;
}

-- What the two helpers do where there is room, and what they leave where there is none.
abbrev pub moved : Loader → Loader
moved s = record s { row = s.row + 1; column = 0; loaded_line_count = s.row + 1 + 1 }

abbrev pub stored : ℕ → Loader → Loader
stored c s = record s {
  load_buffer = put_cell s.load_buffer s.row s.column c;
  column = s.column + 1;
  load_line_lengths = put_length s.load_line_lengths s.row (s.column + 1);
}

pub next_row-eq-moved : (s : Loader) → s.row + 1 < editor_rows → next_row s ≡ moved s
unfolding next_row
next_row-eq-moved s room = ground arith

pub store_character-eq-stored :
    (c : ℕ) (s : Loader) → s.column < editor_columns → store_character c s ≡ stored c s
unfolding store_character
store_character-eq-stored c s room = ground arith

module _ (s : Loader) (v : IsValid s) where
  pub loaded_lines-moved : loaded_lines (moved s) ≡ loaded_lines s ++ [] ∷ []
  loaded_lines-moved =
      tabulate-append (s.row + 1) 1 (s.row + 1 + 1) (loaded_line s) (λ i. []) refl
        (λ i l.
          ap (λ n. tabulate n (s.load_buffer (s.row + 1 + i))) {x = 0}
            (omega (arith, v.fresh (s.row + 1 + i))))
      ∙ ap (λ n. tabulate n (loaded_line s) ++ [] ∷ []) (sym v.count)

  pub loaded_lines-stored : (c : ℕ) → loaded_lines (stored c s) ≡ append_last c (loaded_lines s)
  loaded_lines-stored c =
      tabulate-modify_at s.loaded_line_count s.row (λ l. l ++ c ∷ []) (loaded_line (stored c s))
        (loaded_line s) (omega (arith, v.count)) here other
      ∙ ap (λ r. modify_at r (λ l. l ++ c ∷ []) (loaded_lines s))
          (omega (arith, v.count, length-tabulate s.loaded_line_count (loaded_line s)))
    where
      here : loaded_line (stored c s) s.row ≡ loaded_line s s.row ++ c ∷ []
      here =
          ap (λ n. tabulate n ((stored c s).load_buffer s.row)) {y = s.column + 1} (ground arith)
          ∙ tabulate-append s.column 1 (s.column + 1) ((stored c s).load_buffer s.row) (λ i. c) refl
              (λ i l. ground arith)
          ∙ ap (λ l. l ++ c ∷ [])
              (tabulate-congr s.column ((stored c s).load_buffer s.row) (s.load_buffer s.row)
                  (λ i l. ground arith)
                ∙ ap (λ n. tabulate n (s.load_buffer s.row)) v.here)

      other : (i : ℕ) → i ≢ s.row → loaded_line (stored c s) i ≡ loaded_line s i
      other i ne =
          ap (λ n. tabulate n ((stored c s).load_buffer i)) {y = s.load_line_lengths i}
            (ground arith)
          ∙ tabulate-congr (s.load_line_lengths i) ((stored c s).load_buffer i) (s.load_buffer i)
              (λ x l. ground arith)

pub moved-IsValid : (s : Loader) → s.row + 1 < editor_rows → IsValid s → IsValid (moved s)
moved-IsValid s room v = record {
  count = refl;
  row_in = room;
  here = omega (arith, v.fresh (s.row + 1));
  column_in = omega arith;
  widths = v.widths;
  fresh = λ y h. v.fresh y (omega arith);
}

pub stored-IsValid :
    (c : ℕ) (s : Loader) → s.column < editor_columns → IsValid s → IsValid (stored c s)
stored-IsValid c s room v = record {
  count = v.count;
  row_in = v.row_in;
  here = ground arith;
  column_in = omega arith;
  widths = λ y. ground (arith, v.widths y);
  fresh = λ y h. ground (arith, v.fresh y);
}

pub next_row-room : (s : Loader) → is_load_ok (next_row s).status ≡ true → s.row + 1 < editor_rows
unfolding next_row
next_row-room s h = ground arith

pub store_character-room :
    (c : ℕ) (s : Loader)
    → is_load_ok (store_character c s).status ≡ true
    → s.column < editor_columns
unfolding store_character
store_character-room c s h = ground arith
