-- ===== src/Editor/Saving.antt =====
-- `save_document` of src/programs/myeditor/myeditor.c stores the lines of the document.
use my_dos.Base.{
  ℕ, zero, suc, ◌+◌, ◌≡◌, refl, sym, ap, ◌∙◌, arith, true, List, [], ◌++◌, some, ltb, if◌then◌else◌,
  tabulate, append-nil, append_assoc, Bool-cases, inl, inr,
}
use native.Mathlib.Nat.{add-zero}
use my_dos.FatFs.{FatFs, FResult, fr_ok, is_ok, create_always}
use my_dos.FatFs.Laws.{eq_of_is_ok, FileLaws}
use my_dos.Editor.Document.{Document}
use my_dos.Editor.Lines.{line, lines}
use my_dos.Editor.SavedText.{saved_text}
use my_dos.Editor.Storage.{
  newline, write_all, write_line, write_newline, write_row, write_rows, save_document,
}

-- What the loop over the rows writes.
abbrev rows_text : ℕ → Document → ℕ → List ℕ
rows_text zero doc row = []
rows_text (suc n) doc row =
    (line doc row ++ (if ltb (row + 1) doc.line_count then newline else []))
    ++ rows_text n doc (row + 1)

rows_text-eq-saved_text :
    (n : ℕ) (doc : Document) (row : ℕ) (f : ℕ → List ℕ)
    → row + n ≡ doc.line_count
    → ((i : ℕ) → f i ≡ line doc (row + i))
    → rows_text n doc row ≡ saved_text (tabulate n f)
unfolding saved_text
rows_text-eq-saved_text zero doc row f e h = refl
rows_text-eq-saved_text (suc zero) doc row f e h = ground (
  arith,
  append-nil (line doc row ++ []),
  append-nil (line doc row),
  h 0,
  ap (line doc) (add-zero row),
)
rows_text-eq-saved_text (suc (suc n)) doc row f e h = ground (
  arith,
  append_assoc (line doc row) newline (rows_text (suc n) doc (row + 1)),
  h 0,
  ap (line doc) (add-zero row),
  rows_text-eq-saved_text (suc n) doc (row + 1) (λ i. f (suc i)) (omega arith)
      (λ i. h (suc i) ∙ ap (line doc) (omega arith)),
)

module _ (fat : FatFs) (laws : FileLaws fat) where
  open fat use {Volume, File, f_write, f_open}
  open laws use {path_of, written, stored, write_ok, close_ok, open_create}

  -- An accepted sequence of writes keeps the file's path and appends a text to it.
  abbrev Appends : List ℕ → File → Volume → FResult × File × Volume → Type 0
  Appends text file v out =
      is_ok out.0 ≡ true
      → (path_of out.1 ≡ path_of file) × (written out.1 out.2 ≡ written file v ++ text)

  write_all-Appends :
      (bytes : List ℕ) (file : File) (v : Volume)
      → Appends bytes file v (write_all fat bytes file v)
  unfolding write_all
  write_all-Appends bytes file v h =
      write_ok bytes file v (eq_of_is_ok (f_write bytes file v).0 (ground arith)) (ground arith)

  Appends-nothing :
      (text : List ℕ) (file : File) (v : Volume) → text ≡ [] → Appends text file v (fr_ok, file, v)
  Appends-nothing text file v e h =
      (refl, sym (append-nil (written file v)) ∙ ap (λ t. written file v ++ t) (sym e))

  -- Two steps, the second only if the first is accepted.
  Appends-then :
      (a b : List ℕ) (file : File) (v : Volume) (first : FResult × File × Volume)
      (second : File → Volume → FResult × File × Volume)
      → Appends a file v first
      → Appends b first.1 first.2 (second first.1 first.2)
      → Appends (a ++ b) file v (if is_ok first.0 then second first.1 first.2 else first)
  Appends-then a b file v first second p q h = elim (Bool-cases (is_ok first.0)) [
    | inl e ↦
        let (same, text) = p e in
        let (same', text') = q (rw e at h) in
        rw e (same' ∙ same, text' ∙ ap (λ t. t ++ b) text ∙ append_assoc (written file v) a b)
    | inr e ↦ absurd (ground arith)
  ]

  write_line-Appends :
      (doc : Document) (row : ℕ) (file : File) (v : Volume)
      → Appends (line doc row) file v (write_line fat doc row file v)
  unfolding write_line
  write_line-Appends doc row file v = elim (Bool-cases (ltb 0 (doc.line_lengths row))) [
    | inl e ↦ rw e (write_all-Appends (line doc row) file v)
    | inr e ↦ rw e (
        Appends-nothing (line doc row) file v
          (ap (λ n. tabulate n (doc.cells row)) {y = 0} (ground arith)))
  ]

  write_newline-Appends :
      (doc : Document) (row : ℕ) (file : File) (v : Volume)
      → Appends
          (if ltb (row + 1) doc.line_count then newline else [])
          file
          v
          (write_newline fat doc row file v)
  unfolding write_newline
  write_newline-Appends doc row file v = elim (Bool-cases (ltb (row + 1) doc.line_count)) [
    | inl e ↦ rw e (write_all-Appends newline file v)
    | inr e ↦ rw e (Appends-nothing [] file v refl)
  ]

  write_row-Appends :
      (doc : Document) (row : ℕ) (file : File) (v : Volume)
      → Appends
          (line doc row ++ (if ltb (row + 1) doc.line_count then newline else []))
          file
          v
          (write_row fat doc row file v)
  unfolding write_row
  write_row-Appends doc row file v =
      let first = write_line fat doc row file v in
      Appends-then (line doc row) (if ltb (row + 1) doc.line_count then newline else []) file v
        first (write_newline fat doc row) (write_line-Appends doc row file v)
        (write_newline-Appends doc row first.1 first.2)

  write_rows-Appends :
      (n : ℕ) (doc : Document) (row : ℕ) (file : File) (v : Volume)
      → Appends (rows_text n doc row) file v (write_rows fat n doc row file v)
  unfolding write_rows
  write_rows-Appends zero doc row file v = Appends-nothing [] file v refl
  write_rows-Appends (suc n) doc row file v =
      let first = write_row fat doc row file v in
      Appends-then (line doc row ++ (if ltb (row + 1) doc.line_count then newline else []))
        (rows_text n doc (row + 1)) file v first (write_rows fat n doc (row + 1))
        (write_row-Appends doc row file v) (write_rows-Appends n doc (row + 1) first.1 first.2)

  -- If saving reports success, and FatFs keeps its documented promises, the file holds the
  -- document's lines with "\r\n" between them.
  pub save_document-stores :
      (filename : List ℕ) (doc : Document) (v : Volume)
      → (save_document fat filename doc v).0 ≡ fr_ok
      → stored filename (save_document fat filename doc v).1 ≡ some (saved_text (lines doc))
  unfolding save_document
  save_document-stores filename doc v h =
      let opened = f_open filename create_always v in
      let out = write_rows fat doc.line_count doc 0 opened.1 opened.2 in
      ground (
        arith,
        eq_of_is_ok opened.0,
        open_create filename v,
        write_rows-Appends doc.line_count doc 0 opened.1 opened.2,
        close_ok out.1 out.2,
        rows_text-eq-saved_text doc.line_count doc 0 (line doc) (omega arith)
            (λ i. ap (line doc) (omega arith)),
      )
