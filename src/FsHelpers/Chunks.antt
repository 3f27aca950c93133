-- ===== src/FsHelpers/Chunks.antt =====
-- `cat_file` of src/kernel/helper/fshelpers/fshelpers.c reads a file 128 bytes at a time and shows
-- what it reads as one text.
use my_dos.Base.{
  ℕ, zero, suc, ◌+◌, ◌≤◌, ◌<◌, ◌≡◌, refl, sym, ap, ap₂, subst, ◌∙◌, arith, true, List, [], ◌∷◌,
  ◌++◌, Option, none, some, ◌==◌, length, take, Bool-cases, inl, inr, ==→eq, take-nil_inv,
  length-drop_lt, take-length-take, take-append-drop, not, ◌||◌,
}
use my_dos.Kernel.{vga_width}
use my_dos.Console.{Console, OnScreen, scrl-OnScreen, write-OnScreen, OnScreen-if}
use my_dos.FatFs.{FatFs, FResult, fr_ok, is_ok, read}
use my_dos.FatFs.Laws.{FileLaws, eq_of_is_ok}
use my_dos.FsHelpers.Paths.{NoZero}
use my_dos.FsHelpers.Rows.{wrap_text, show_rows, NoZero-take, end_row-show_bytes}
use my_dos.FsHelpers.Showing.{View, show_byte, show_bytes, end_row, show_chunks, cat_file, wrap}

show_bytes-append :
    (xs ys : List ℕ) (s : View) → show_bytes (xs ++ ys) s ≡ show_bytes ys (show_bytes xs s)
unfolding show_bytes
show_bytes-append [] ys s = refl
show_bytes-append (c ∷ xs) ys s = show_bytes-append xs ys (show_byte c s)

-- The view before anything is shown.
abbrev pub from_left : Console → View
from_left c = record { column = 0; console = c }

-- The column is one of the screen's, or the one behind the last.
pub record InView (s : View) : Type 0 where
  pub column_fits : s.column ≤ vga_width
  pub row_fits : OnScreen s.console

wrap-InView : (s : View) → InView s → InView (wrap s)
wrap-InView s h = elim (Bool-cases (s.column == vga_width)) [
  | inl e ↦ rw e (record { column_fits = omega arith; row_fits = scrl-OnScreen s.console })
  | inr e ↦ rw e h
]

wrap-column : (s : View) → s.column ≤ vga_width → (wrap s).column < vga_width
wrap-column s h = ground arith

show_byte-InView : (ch : ℕ) (s : View) → InView s → InView (show_byte ch s)
unfolding show_byte
show_byte-InView ch s h =
    let w = wrap-InView s h in
    let room = wrap-column s h.column_fits in
    elim (Bool-cases (ch == 13)) [
      | inl e ↦ rw e h
      | inr e ↦ elim (Bool-cases (ch == 10)) [
        | inl f ↦
            rw (e, f) (record { column_fits = omega arith; row_fits = scrl-OnScreen s.console })
        | inr f ↦
            rw (e, f)
              (record {
                column_fits = omega arith;
                row_fits = write-OnScreen (ch ∷ []) 15 (wrap s).column (wrap s).console w.row_fits;
              })
      ]
    ]

show_bytes-InView : (bytes : List ℕ) (s : View) → InView s → InView (show_bytes bytes s)
unfolding show_bytes
show_bytes-InView [] s h = h
show_bytes-InView (c ∷ bytes) s h = show_bytes-InView bytes (show_byte c s) (show_byte-InView c s h)

pub end_row-OnScreen : (s : View) → InView s → OnScreen (end_row s)
unfolding end_row
end_row-OnScreen s h = OnScreen-if _ _ _ (scrl-OnScreen s.console) h.row_fits

module _ (fat : FatFs) where
  open fat use {Volume, File, f_read, f_open, f_close}

  -- What the loop leaves is on the screen.
  abbrev Stays : Option (View × File × Volume) → Type 0
  Stays none = Unit
  Stays (some out) = InView out.0

  show_chunks-Stays :
      (fuel : ℕ) (file : File) (s : View) (v : Volume)
      → InView s
      → Stays (show_chunks fat fuel file s v)
  unfolding show_chunks
  show_chunks-Stays zero file s v h = tt
  show_chunks-Stays (suc fuel) file s v h =
      let got = f_read 128 file v in
      elim (Bool-cases (not (is_ok got.0) || length got.1 == 0)) [
        | inl e ↦ rw e h
        | inr e ↦
            rw e (
              show_chunks-Stays fuel got.2 (show_bytes got.1 s) got.3 (show_bytes-InView got.1 s h))
      ]

  -- Whatever the file system answers, a console on the screen stays there.
  abbrev pub StaysOn : Option (FResult × Console × Volume) → Type 0
  StaysOn none = Unit
  StaysOn (some out) = OnScreen out.1

  pub cat_file-StaysOn :
      (fuel : ℕ) (path : List ℕ) (c : Console) (v : Volume)
      → OnScreen c
      → StaysOn (cat_file fat fuel path c v)
  unfolding cat_file
  cat_file-StaysOn fuel path c v h = elim (Bool-cases (is_ok (f_open path read v).0)) [
    | inr e ↦ rw e h
    | inl e ↦ rw e (
        closed _ (
          show_chunks-Stays fuel _ (from_left c) _
            (record { column_fits = omega arith; row_fits = h })))
  ]
    where
      closed :
          (out : Option (View × File × Volume))
          → Stays out
          → StaysOn (elim out [
            | none ↦ none
            | some (s, file', v2) ↦ some (fr_ok, end_row s, (f_close file' v2).1)
          ])
      closed none k = tt
      closed (some (s, file', v2)) k = end_row-OnScreen s k

  -- No read fails.
  abbrev pub ReadsAll : Type 0
  ReadsAll = (n : ℕ) (f : File) (w : Volume) → is_ok (f_read n f w).0 ≡ true

  module _ (laws : FileLaws fat) where
    open laws use {unread, stored, read_ok, open_read}

    -- The loop ends and has shown a first part of the bytes: all of them, if no read fails.
    abbrev Shown : List ℕ → View → Option (View × File × Volume) → Type 0
    Shown bytes s result =
        (out : View × File × Volume) × (result ≡ some out)
        × ((k : ℕ) × (out.0 ≡ show_bytes (take k bytes) s) × (ReadsAll → take k bytes ≡ bytes))

    show_chunks-lem :
        (fuel : ℕ) (file : File) (s : View) (v : Volume)
        → length (unread file v) < fuel
        → Shown (unread file v) s (show_chunks fat fuel file s v)
    unfolding show_chunks
    show_chunks-lem zero file s v h = absurd (omega arith)
    show_chunks-lem (suc fuel) file s v h =
        let got = f_read 128 file v in
        elim (Bool-cases (is_ok got.0)) [
          | inr e ↦ (
            (s, got.2, got.3),
            rw e,
            (0, unfold show_bytes in refl, λ all. absurd (cc (all 128 file v))),
          )
          | inl e ↦
              let (now, later) = read_ok 128 file v (eq_of_is_ok got.0 e) in
              elim (Bool-cases (length got.1 == 0)) [
                | inl end ↦
                    let none_left =
                      take-nil_inv 127 (unread file v)
                        (ap length (sym now) ∙ ==→eq (length got.1) 0 end) in
                    (
                      (s, got.2, got.3),
                      rw (e, end),
                      (0, unfold show_bytes in refl, λ all. sym none_left),
                    )
                | inr more ↦
                    let (out, eq, (k, shown, whole)) =
                      show_chunks-lem fuel got.2 (show_bytes got.1 s) got.3 (
                        subst (λ xs. length xs < fuel) (sym later)
                          (length-drop_lt 127 fuel (unread file v) (ground (arith, ap length now))
                            h)) in
                    let cut : take (length got.1 + k) (unread file v)
                        ≡ got.1 ++ take k (unread got.2 got.3) =
                      ap (λ xs. take (length xs + k) (unread file v)) now
                      ∙ take-length-take 128 k (unread file v)
                      ∙ sym (ap₂ (λ xs ys. xs ++ take k ys) now later) in
                    (
                      out,
                      rw (e, more) eq,
                      (
                        length got.1 + k,
                        shown
                            ∙ sym (show_bytes-append got.1 (take k (unread got.2 got.3)) s)
                            ∙ ap (λ bs. show_bytes bs s) (sym cut),
                        λ all.
                            cut
                            ∙ ap₂ ◌++◌ now (whole all ∙ later)
                            ∙ take-append-drop 128 (unread file v),
                      ),
                    )
              ]
        ]

    -- If FatFs keeps its documented promises, then with fuel above the length of a file that can be
    -- opened and has no zero bytes, showing it ends without an error, and the screen shows the rows
    -- of a first part of its text one below the other, from the left end of the cursor's row on: a
    -- row ends at a line feed or after 80 characters, carriage returns are left out, and the part
    -- is the whole text if no read fails.
    pub cat_file-shows :
        (fuel : ℕ) (path bytes : List ℕ) (c : Console) (v : Volume)
        → stored path v ≡ some bytes
        → (f_open path read v).0 ≡ fr_ok
        → length bytes < fuel
        → NoZero bytes
        → (k : ℕ) × (v' : Volume) × (cat_file fat fuel path c v
            ≡ some (fr_ok, show_rows (wrap_text [] (take k bytes)) c, v'))
          × (ReadsAll → take k bytes ≡ bytes)
    unfolding cat_file
    cat_file-shows fuel path bytes c v there opens enough plain =
        let opened = f_open path read v in
        let text = open_read path bytes v there opens in
        let (out, eq, (k, shown, whole)) =
          show_chunks-lem fuel opened.1 (from_left c) opened.2
            (subst (λ bs. length bs < fuel) (sym text) enough) in
        let good : is_ok opened.0 ≡ true = ap is_ok opens in
        let rows : end_row out.0 ≡ show_rows (wrap_text [] (take k bytes)) c =
          ap end_row (shown ∙ ap (λ bs. show_bytes (take k bs) (from_left c)) text)
          ∙ end_row-show_bytes (take k bytes) c (NoZero-take k bytes plain) in
        let v' = (f_close out.1 out.2).1 in
        (
          k,
          v',
          rw (good, eq) (ap (λ shown. some (fr_ok, shown, v')) rows),
          λ all. subst (λ bs. take k bs ≡ bs) text (whole all),
        )
