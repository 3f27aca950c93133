-- ===== src/Editor/Tests.antt =====
-- Runs of src/programs/myeditor/myeditor.c, and the theorems at these inputs.
use my_dos.Base.{
  ℕ, zero, suc, ◌≤◌, ◌<◌, ◌+◌, ◌*◌, ◌≡◌, refl, arith, List, [], ◌∷◌, codes, Option, none, some,
  get_or, length, true,
}
use my_dos.Base.Tables.{split_at, join_at}
use my_dos.FatFs.{FResult, fr_ok}
use my_dos.FatFs.Memory.{memory, memory_laws}
use my_dos.Editor.Document.{
  Document, insert_character, delete_character, split_line, join_with_previous_line, open_gap,
  shift_right,
}
use my_dos.Editor.Lines.{lines, lines-insert_character, lines-delete_character}
use my_dos.Editor.Breaks.{lines-split_line}
use my_dos.Editor.Joins.{lines-join_with_previous_line}
use my_dos.Editor.Loader.{
  load_byte, load_newline, load_character, next_row, store_character, LoadStatus, Loader, start,
  load_bytes, is_load_ok, loaded_lines,
}
use my_dos.Editor.Load.{load_bytes-lem}
use my_dos.Editor.Scanning.{add_bytes, seen, start-IsValid}
use my_dos.Editor.SavedText.{saved_text, drop_empty_end}
use my_dos.Editor.RoundTrip.{load-saved_text}
use my_dos.Editor.Session.{Editor, key_f3, edit_key, enter, type_character}
use my_dos.Editor.Storage.{
  save_document, load_document, write_rows, write_row, write_line, write_newline, write_all,
}
use my_dos.Editor.Saving.{save_document-stores}
use my_dos.Editor.Opening.{Opens, load_document-saved}
use my_dos.Editor.Invariant.{IsValid, edit_key-IsValid}
use my_dos.Editor.Loop.{fresh_editor, session, handle_key}
use my_dos.Vga.{default_theme, cell, theme_attribute}
use my_dos.Kernel.{white}
use my_dos.Editor.Screen.{draw_document}
use my_dos.Editor.Drawing.{Printable, draw_document-shows}
use my_dos.Editor.Visible.{edit_key-Printable}
use my_dos.Editor.Ending.{Edits, edit_keys, fresh_editor-Printable, session-ends}
use my_dos.Editor.Safety.{session-IsValid, fresh_editor-IsValid}

abbrev two_lines : List (List ℕ)
two_lines = codes "ab" ∷ codes "c" ∷ []

-- A document with these lines.
abbrev example : Document
example = record {
  cells = λ y x. get_or (get_or two_lines y []) x 0;
  line_lengths = λ y. length (get_or two_lines y []);
  line_count = 2;
}

abbrev editor : Editor
editor = fresh_editor (λ y x. 0)

lines-insert_character_example :
    lines (insert_character 0 1 b'x' example) ≡ codes "axb" ∷ codes "c" ∷ []
lines-insert_character_example =
    lines-insert_character 0 1 b'x' example (omega arith) (omega arith) (omega arith)

lines-delete_character_example : lines (delete_character 0 0 example) ≡ codes "b" ∷ codes "c" ∷ []
lines-delete_character_example = lines-delete_character 0 0 example (omega arith) (omega arith)

lines-split_line_example : lines (split_line 0 1 example).1 ≡ codes "a" ∷ codes "b" ∷ codes "c" ∷ []
unfolding split_at
lines-split_line_example = lines-split_line 0 1 example (omega arith) (omega arith) (omega arith)

lines-join_with_previous_line_example :
    lines (join_with_previous_line 1 example).1 ≡ codes "abc" ∷ []
unfolding join_at
lines-join_with_previous_line_example =
    lines-join_with_previous_line 0 example (omega arith) (omega arith)

edit_key-IsValid_example : IsValid (edit_key 10 editor)
edit_key-IsValid_example = edit_key-IsValid 10 editor (fresh_editor-IsValid (λ y x. 0))

abbrev after_reading : Loader
after_reading = load_bytes (codes "ab\nc") start

reading_ok : is_load_ok after_reading.status ≡ true
unfolding load_bytes load_byte load_newline load_character next_row store_character
reading_ok = refl

load_bytes-lem_example :
    my_dos.Editor.Scanning.IsValid after_reading
    × (seen after_reading ≡ add_bytes (codes "ab\nc") (seen start))
load_bytes-lem_example = load_bytes-lem (codes "ab\nc") start start-IsValid refl reading_ok

-- "ab", "c" and an empty last line.
abbrev after_loading : Loader
after_loading = load_bytes (saved_text (codes "ab" ∷ codes "c" ∷ [] ∷ [])) start

load-saved_text_example :
    (is_load_ok after_loading.status ≡ true)
    × (loaded_lines after_loading ≡ drop_empty_end (codes "ab" ∷ codes "c" ∷ [] ∷ []))
load-saved_text_example =
    load-saved_text (codes "ab") (codes "c" ∷ [] ∷ []) (ground arith) (omega arith)

loses_empty_line : loaded_lines after_loading ≡ codes "ab" ∷ codes "c" ∷ []
unfolding load_bytes load_byte load_newline load_character next_row store_character saved_text
loses_empty_line = refl

save_document-stores_example :
    (save_document memory (codes "a.txt") example none).1 ≡ some (saved_text (lines example))
save_document-stores_example =
    save_document-stores memory memory_laws (codes "a.txt") example none saved
  where
    saved : (save_document memory (codes "a.txt") example none).0 ≡ fr_ok
    saved = unfold save_document write_rows write_row write_line write_newline write_all in refl

load_document-saved_example :
    (out : LoadStatus × FResult × Editor × Option (List ℕ)) × (load_document memory 6
        (codes "a.txt")
        editor
        (some (saved_text two_lines))
      ≡ some out)
    × Opens memory memory_laws (drop_empty_end two_lines) (codes "a.txt") editor out
load_document-saved_example =
    load_document-saved memory memory_laws 6 (codes "ab") (codes "c" ∷ []) (codes "a.txt") editor
      (some (saved_text two_lines)) (ground arith) (omega arith) refl
      (unfold saved_text in omega arith)

-- Enter, a letter and F3.
abbrev keys : List ℕ
keys = 10 ∷ b'a' ∷ key_f3 ∷ []

abbrev get_editor : Option (Editor × List ℕ × Option (List ℕ)) → Editor × List ℕ × Option (List ℕ)
get_editor none = (editor, [], none)
get_editor (some out) = out

abbrev final : Editor × List ℕ × Option (List ℕ)
final = get_editor (session memory 3 2 editor keys none)

session-IsValid_example : IsValid final.0
session-IsValid_example =
    session-IsValid memory 3 2 editor keys none final (fresh_editor-IsValid (λ y x. 0)) ends
  where
    ends : session memory 3 2 editor keys none ≡ some final
    ends = unfold session handle_key in refl

example-below : (y : ℕ) → 2 ≤ y → example.line_lengths y ≡ 0
example-below zero h = absurd (omega arith)
example-below (suc zero) h = absurd (omega arith)
example-below (suc (suc y)) h = refl

example-nonzero : (y x : ℕ) → x < example.line_lengths y → 0 < example.cells y x
example-nonzero zero zero h = omega arith
example-nonzero zero (suc zero) h = omega arith
example-nonzero zero (suc (suc x)) h = absurd (omega arith)
example-nonzero (suc zero) zero h = omega arith
example-nonzero (suc zero) (suc x) h = absurd (omega arith)
example-nonzero (suc (suc y)) x h = absurd (omega arith)

abbrev example-Printable : Printable example
example-Printable = record { below = example-below; nonzero = example-nonzero }

draw_document-shows_example :
    draw_document example default_theme (λ i. 0) (3 * 80 + 2)
    ≡ cell b'b' (theme_attribute white default_theme)
draw_document-shows_example =
    draw_document-shows example example-Printable default_theme (λ i. 0) 3 2 (omega arith)

edit_key-Printable_example : Printable (edit_key 10 editor).doc
edit_key-Printable_example =
    edit_key-Printable 10 editor (fresh_editor-IsValid (λ y x. 0))
      (fresh_editor-Printable (λ y x. 0))

abbrev typed : List ℕ
typed = 65 ∷ 10 ∷ 66 ∷ []

typed-Edits : Edits typed
typed-Edits = (
  ((λ e. omega arith), (λ e. omega arith), (λ e. omega arith)),
  (
    ((λ e. omega arith), (λ e. omega arith), (λ e. omega arith)),
    (((λ e. omega arith), (λ e. omega arith), (λ e. omega arith)), tt),
  ),
)

session-ends_example :
    (session memory 5 2 editor (65 ∷ 10 ∷ 66 ∷ key_f3 ∷ 67 ∷ []) none
      ≡ some (edit_keys typed editor, 67 ∷ [], none))
    × IsValid (edit_keys typed editor)
    × Printable (edit_keys typed editor).doc
session-ends_example =
    session-ends memory typed (67 ∷ []) 5 2 editor none typed-Edits (omega arith)
      (fresh_editor-IsValid (λ y x. 0)) (fresh_editor-Printable (λ y x. 0))

-- What these keys leave.
typed-lines : lines (edit_keys typed editor).doc ≡ codes "A" ∷ codes "B" ∷ []
unfolding edit_key enter type_character split_line insert_character open_gap shift_right
typed-lines = refl
