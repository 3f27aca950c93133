-- ===== src/Editor/Opening.antt =====
-- `load_document` of src/programs/myeditor/myeditor.c reads the whole file, 128 bytes at a time, and
-- takes over its lines.
use my_dos.Base.{
  ℕ, zero, suc, ◌≤◌, ◌<◌, ◌≡◌, ◌⊎◌, inl, inr, refl, sym, ap, ap₂, subst, ◌∙◌, arith, true, false,
  List, [], ◌∷◌, ◌++◌, Option, some, ◌==◌, length, Bool-cases, take-append-drop, ==→eq,
  take-nil_inv, length-drop_lt,
}
use my_dos.FatFs.{FatFs, FResult, is_ok, read}
use my_dos.FatFs.Laws.{FileLaws, eq_of_is_ok}
use my_dos.Editor.Document.{editor_rows}
use my_dos.Editor.Lines.{lines}
use my_dos.Editor.Loader.{
  LoadStatus, load_ok, filesystem_error, is_load_ok, Loader, start, load_byte, load_bytes,
  loaded_lines,
}
use my_dos.Editor.SavedText.{saved_text, drop_empty_end, All, LineFits}
use my_dos.Editor.RoundTrip.{load-saved_text}
use my_dos.Editor.Session.{Editor}
use my_dos.Editor.Storage.{load_chunks, finish_load, load_document}

load_bytes-append :
    (xs ys : List ℕ) (s : Loader)
    → is_load_ok (load_bytes xs s).status ≡ true
    → load_bytes (xs ++ ys) s ≡ load_bytes ys (load_bytes xs s)
unfolding load_bytes
load_bytes-append [] ys s h = refl
load_bytes-append (c ∷ xs) ys s h = elim (Bool-cases (is_load_ok (load_byte c s).status)) [
  | inl e ↦ rw e (load_bytes-append xs ys (load_byte c s) (rw e at h))
  | inr e ↦ absurd (ground arith)
]

load_bytes-append_refused :
    (xs ys : List ℕ) (s : Loader)
    → is_load_ok s.status ≡ true
    → is_load_ok (load_bytes xs s).status ≡ false
    → load_bytes (xs ++ ys) s ≡ load_bytes xs s
unfolding load_bytes
load_bytes-append_refused [] ys s k h = absurd (ground arith)
load_bytes-append_refused (c ∷ xs) ys s k h =
    elim (Bool-cases (is_load_ok (load_byte c s).status)) [
      | inl e ↦ rw e (load_bytes-append_refused xs ys (load_byte c s) e (rw e at h))
      | inr e ↦ rw e
    ]

load_bytes-nil : (s : Loader) → load_bytes [] s ≡ s
unfolding load_bytes
load_bytes-nil s = refl

module _ (fat : FatFs) (laws : FileLaws fat) where
  open fat use {Volume, File, f_read, f_open, f_close}
  open laws use {unread, stored, read_ok, open_read}

  -- The loop has ended, at an error of the disk or with what the scanner makes of a text.
  abbrev Ends : List ℕ → Loader → Option (Loader × FResult × File × Volume) → Type 0
  Ends text s result =
      (out : Loader × FResult × File × Volume) × (result ≡ some out)
      × ((out.0.status ≡ filesystem_error) ⊎ (out.0 ≡ load_bytes text s))

  -- One round that reads something.
  load_chunks-round :
      (n : ℕ) (s : Loader) (error : FResult) (file : File) (v : Volume)
      → is_load_ok s.status ≡ true
      → is_ok (f_read 128 file v).0 ≡ true
      → (length (f_read 128 file v).1 == 0) ≡ false
      → (is_load_ok (load_bytes (f_read 128 file v).1 s).status ≡ true
          → Ends
              (unread (f_read 128 file v).2 (f_read 128 file v).3)
              (load_bytes (f_read 128 file v).1 s)
              (load_chunks fat n
                (load_bytes (f_read 128 file v).1 s)
                error
                (f_read 128 file v).2
                (f_read 128 file v).3))
      → Ends (unread file v) s (load_chunks fat (suc n) s error file v)
  unfolding load_chunks
  load_chunks-round n s error file v k e more rec =
      let got = f_read 128 file v in
      let next = load_bytes got.1 s in
      let (now, later) = read_ok 128 file v (eq_of_is_ok got.0 e) in
      let whole : got.1 ++ unread got.2 got.3 ≡ unread file v =
        ap₂ ◌++◌ now later ∙ take-append-drop 128 (unread file v) in
      elim (Bool-cases (is_load_ok next.status)) [
        | inr bad ↦ (
          (next, error, got.2, got.3),
          rw (e, more, bad),
          inr (
              sym (load_bytes-append_refused got.1 (unread got.2 got.3) s k bad)
              ∙ ap (λ bs. load_bytes bs s) whole),
        )
        | inl good ↦
            let (out, eq, ends) = rec good in
            (
              out,
              rw (e, more, good) eq,
              elim ends [
                | inl p ↦ inl p
                | inr p ↦ inr (
                    p
                    ∙ sym (load_bytes-append got.1 (unread got.2 got.3) s good)
                    ∙ ap (λ bs. load_bytes bs s) whole)
              ],
            )
      ]

  -- With fuel above the number of bytes that are left the loop ends.
  load_chunks-lem :
      (n : ℕ) (s : Loader) (error : FResult) (file : File) (v : Volume)
      → length (unread file v) < n
      → is_load_ok s.status ≡ true
      → Ends (unread file v) s (load_chunks fat n s error file v)
  load_chunks-lem zero s error file v fuel k = absurd (omega arith)
  load_chunks-lem (suc n) s error file v fuel k =
      let got = f_read 128 file v in
      elim (Bool-cases (is_ok got.0)) [
        | inr e ↦ (
          (record s { status = filesystem_error }, got.0, got.2, got.3),
          unfold load_chunks in rw e,
          inl refl,
        )
        | inl e ↦
            let (now, later) = read_ok 128 file v (eq_of_is_ok got.0 e) in
            elim (Bool-cases (length got.1 == 0)) [
              | inl end ↦ (
                (s, error, got.2, got.3),
                unfold load_chunks in rw (e, end),
                inr (
                    sym (load_bytes-nil s)
                    ∙ ap (λ bs. load_bytes bs s)
                        (sym (
                          take-nil_inv 127 (unread file v)
                            (ap length (sym now) ∙ ==→eq (length got.1) 0 end)))),
              )
              | inr more ↦ load_chunks-round n s error file v k e more (
                  load_chunks-lem n (load_bytes got.1 s) error got.2 got.3 (
                    subst (λ xs. length xs < n) (sym later)
                      (length-drop_lt 127 n (unread file v) (ground (arith, ap length now)) fuel)))
            ]
      ]

  -- What opening a file leaves: its lines, or an error of the disk and the editor as it was.
  abbrev pub Opens :
      List (List ℕ) → List ℕ → Editor → LoadStatus × FResult × Editor × Volume → Type 0
  Opens ls filename ed out =
      ((out.0 ≡ load_ok)
        × (lines out.2.doc ≡ ls)
        × (out.2.current_filename ≡ filename)
        × (out.2.has_unsaved_changes ≡ false))
      ⊎ ((out.0 ≡ filesystem_error) × (out.2 ≡ ed))

  finish_load-Opens :
      (l : List ℕ) (ls : List (List ℕ)) (filename : List ℕ) (s : Loader) (error : FResult)
      (file : File) (ed : Editor) (v : Volume)
      → All LineFits (l ∷ ls)
      → length (l ∷ ls) ≤ editor_rows
      → ((s.status ≡ filesystem_error) ⊎ (s ≡ load_bytes (saved_text (l ∷ ls)) start))
      → Opens (drop_empty_end (l ∷ ls)) filename ed (finish_load fat filename s error file ed v)
  unfolding finish_load
  finish_load-Opens l ls filename s error file ed v h room ends =
      let (accepted, same) = load-saved_text l ls h room in
      elim ends [
        | inl p ↦ inr (ground arith)
        | inr p ↦ elim (Bool-cases (is_ok (f_close file v).0)) [
          | inl e ↦
              let ok : is_load_ok s.status ≡ true = ap (λ t. is_load_ok t.status) p ∙ accepted in
              inl (rw (ok, e) (refl, ap loaded_lines p ∙ same, refl, refl))
          | inr e ↦
              let ok : is_load_ok s.status ≡ true = ap (λ t. is_load_ok t.status) p ∙ accepted in
              inr (rw (ok, e) (refl, refl))
        ]
      ]

  -- If FatFs keeps its documented promises, then with fuel above its length, opening a file that
  -- holds the "\r\n"-joined lines of a document that fits the editor ends; either it opens the file
  -- under its name with those lines, but for an empty last one, or the file system refuses and the
  -- editor is as it was.
  pub load_document-saved :
      (fuel : ℕ) (l : List ℕ) (ls : List (List ℕ)) (filename : List ℕ) (ed : Editor) (v : Volume)
      → All LineFits (l ∷ ls)
      → length (l ∷ ls) ≤ editor_rows
      → stored filename v ≡ some (saved_text (l ∷ ls))
      → length (saved_text (l ∷ ls)) < fuel
      → (out : LoadStatus × FResult × Editor × Volume) × (load_document fat fuel filename ed v
          ≡ some out)
        × Opens (drop_empty_end (l ∷ ls)) filename ed out
  unfolding load_document
  load_document-saved fuel l ls filename ed v h room there enough =
      let opened = f_open filename read v in
      elim (Bool-cases (is_ok opened.0)) [
        | inr e ↦ ((filesystem_error, opened.0, ed, opened.2), rw e, inr (refl, refl))
        | inl e ↦
            let text = open_read filename (saved_text (l ∷ ls)) v there (eq_of_is_ok opened.0 e) in
            let (out, eq, ends) =
              load_chunks-lem fuel start opened.0 opened.1 opened.2
                (subst (λ bs. length bs < fuel) (sym text) enough) refl in
            (
              finish_load fat filename out.0 out.1 out.2 ed out.3,
              rw (e, eq),
              finish_load-Opens l ls filename out.0 out.1 out.2 ed out.3 h room (elim ends [
                | inl p ↦ inl p
                | inr p ↦ inr (p ∙ ap (λ bs. load_bytes bs start) text)
              ]),
            )
      ]
