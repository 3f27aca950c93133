-- ===== src/Editor/SafeLoading.antt =====
-- Opening a file in src/programs/myeditor/myeditor.c: what `load_document` leaves is a document
-- within its arrays, or the editor as it was.
use my_dos.Base.{
  ℕ, zero, suc, ◌≡◌, ◌⊎◌, refl, sym, subst, arith, Bool, true, false, List, Option, none, some,
  ◌==◌, if◌then◌else◌, length, Bool-cases, inl, inr,
}
use my_dos.FatFs.{FatFs, FResult, is_ok, read}
use my_dos.Editor.Document.{Document}
use my_dos.Editor.Loader.{
  LoadStatus, load_ok, filesystem_error, is_load_ok, Loader, start, load_bytes,
}
use my_dos.Editor.Scanning
use my_dos.Editor.Load.{load_bytes-lem}
use my_dos.Editor.Scanning.{start-IsValid}
use my_dos.Editor.Session.{Editor}
use my_dos.Editor.Storage.{load_chunks, finish_load, load_document}
use my_dos.Editor.Invariant.{IsValid, Fits}

-- The loader's buffer is a document within its arrays.
abbrev loaded_document : Loader → Document
loaded_document s = record {
  cells = s.load_buffer;
  line_lengths = s.load_line_lengths;
  line_count = s.loaded_line_count;
}

loaded_document-Fits : (s : Loader) → Scanning.IsValid s → Fits (loaded_document s)
loaded_document-Fits s v = record {
  some_line = omega (arith, v.count);
  rows = omega (arith, v.count, v.row_in);
  columns = v.widths;
}

module _ (fat : FatFs) where
  open fat use {Volume, File, f_read, f_stat, f_open, f_close}

  -- A loader that ends well is valid.
  abbrev EndsValid : Option (Loader × FResult × File × Volume) → Type 0
  EndsValid none = Unit
  EndsValid (some out) = is_load_ok out.0.status ≡ true → Scanning.IsValid out.0

  load_chunks-EndsValid :
      (n : ℕ) (s : Loader) (error : FResult) (file : File) (v : Volume)
      → Scanning.IsValid s
      → is_load_ok s.status ≡ true
      → EndsValid (load_chunks fat n s error file v)
  unfolding load_chunks
  load_chunks-EndsValid zero s error file v ok k = tt
  load_chunks-EndsValid (suc n) s error file v ok k =
      let got = f_read 128 file v in
      let next = load_bytes got.1 s in
      elim (Bool-cases (is_ok got.0)) [
        | inr e ↦ rw e (λ h. absurd (ground arith))
        | inl e ↦ elim (Bool-cases (length got.1 == 0)) [
          | inl end ↦ rw (e, end) (λ h. ok)
          | inr more ↦ elim (Bool-cases (is_load_ok next.status)) [
            | inr bad ↦ rw (e, more, bad) (λ h. absurd (ground arith))
            | inl good ↦
                rw (e, more, good)
                  (load_chunks-EndsValid n next error got.2 got.3
                    (load_bytes-lem got.1 s ok k good).0 good)
          ]
        ]
      ]

  -- Of `load_document`: a success leaves a document within its arrays, a failure the editor.
  abbrev pub Loads : Editor → Option (LoadStatus × FResult × Editor × Volume) → Type 0
  Loads ed none = Unit
  Loads ed (some out) =
      ((out.0 ≡ load_ok) × Fits out.2.doc) ⊎ ((is_load_ok out.0 ≡ false) × (out.2 ≡ ed))

  finish_load-Loads :
      (filename : List ℕ) (s : Loader) (error : FResult) (file : File) (ed : Editor) (v : Volume)
      → (is_load_ok s.status ≡ true → Scanning.IsValid s)
      → Loads ed (some (finish_load fat filename s error file ed v))
  unfolding finish_load
  finish_load-Loads filename s error file ed v ok = elim (Bool-cases (is_load_ok s.status)) [
    | inr bad ↦ inr (rw bad (bad, refl))
    | inl good ↦ elim (Bool-cases (is_ok (f_close file v).0)) [
      | inl e ↦ inl (rw (good, e) (refl, loaded_document-Fits s (ok good)))
      | inr e ↦ inr (rw (good, e) (refl, refl))
    ]
  ]

  pub load_document-Loads :
      (fuel : ℕ) (filename : List ℕ) (ed : Editor) (v : Volume)
      → Loads ed (load_document fat fuel filename ed v)
  unfolding load_document
  load_document-Loads fuel filename ed v = branch (is_ok opened.0) chunks chunks-EndsValid
    where
      opened : FResult × File × Volume
      opened = f_open filename read v

      chunks : Option (Loader × FResult × File × Volume)
      chunks = load_chunks fat fuel start opened.0 opened.1 opened.2

      chunks-EndsValid : EndsValid chunks
      chunks-EndsValid =
          load_chunks-EndsValid fuel start opened.0 opened.1 opened.2 start-IsValid refl

      branch :
          (b : Bool) (c : Option (Loader × FResult × File × Volume))
          → EndsValid c
          → Loads ed (
              if b
              then (elim c [
                | none ↦ none
                | some (s, error, file, w) ↦ some (finish_load fat filename s error file ed w)
              ])
              else some (filesystem_error, opened.0, ed, opened.2))
      branch false c h = inr (refl, refl)
      branch true none h = tt
      branch true (some (s, error, file, w)) h = finish_load-Loads filename s error file ed w h

  pub opened-Fits :
      (ed ed' : Editor) (error : FResult) (v : Volume)
      → Loads ed (some (load_ok, error, ed', v))
      → Fits ed'.doc
  opened-Fits ed ed' error v h = elim h [ inl (p, f) ↦ f | inr (p, q) ↦ absurd (ground arith) ]

  pub not_opened-IsValid :
      (status : LoadStatus) (ed ed' : Editor) (error : FResult) (v : Volume)
      → is_load_ok status ≡ false
      → IsValid ed
      → Loads ed (some (status, error, ed', v))
      → IsValid ed'
  not_opened-IsValid status ed ed' error v bad ok h = elim h [
    | inl (p, f) ↦ absurd (ground arith)
    | inr (p, q) ↦ subst IsValid (sym q) ok
  ]
