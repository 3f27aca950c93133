-- ===== src/Editor/SafePrompts.antt =====
-- The dialogues of src/programs/myeditor/myeditor.c keep the invariant, whatever the file system
-- answers.
use my_dos.Base.{
  ℕ, refl, arith, Bool, true, false, List, [], Option, none, some, if◌then◌else◌, Bool-cases, inl,
  inr,
}
use my_dos.FatFs.{FatFs, FResult, is_ok, is_no_file}
use my_dos.Editor.Loader.{LoadStatus, load_ok, too_large, invalid_text, filesystem_error}
use my_dos.Editor.Session.{Editor}
use my_dos.Editor.Storage.{save_document}
use my_dos.Editor.Invariant.{IsValid, Fits}
use my_dos.Editor.Prompts.{
  read_filename, confirm, write_file, answer_overwrite, check_target, save_as, save_file,
  report_load, open_named, choose_file, answer_discard, open_file,
}
use my_dos.Editor.SafeLoading.{Loads, load_document-Loads, opened-Fits, not_opened-IsValid}

-- The invariant does not depend on the file's name, the flags and the status line.
relabel :
    (ed : Editor) (name : List ℕ) (named unsaved : Bool) (status : List ℕ × ℕ)
    → IsValid ed
    → IsValid (record ed {
      current_filename = name;
      has_filename = named;
      has_unsaved_changes = unsaved;
      status = status;
    })
relabel ed name named unsaved status v = record {
  fits = v.fits;
  on_line = v.on_line;
  in_line = v.in_line;
}

module _ (fat : FatFs) where
  open fat use {Volume, File, f_read, f_stat, f_open, f_close}

  -- What a part of the editor leaves is valid.
  abbrev pub Keeps : Option (Editor × List ℕ × Volume) → Type 0
  Keeps none = Unit
  Keeps (some out) = IsValid out.0

  write_file-Keeps :
      (filename : List ℕ) (ed : Editor) (keys : List ℕ) (v : Volume)
      → IsValid ed
      → Keeps (write_file fat filename ed keys v)
  unfolding write_file
  write_file-Keeps filename ed keys v ok =
      elim (Bool-cases (is_ok (save_document fat filename ed.doc v).0)) [
        | inl e ↦ rw e (relabel ed _ _ _ _ ok)
        | inr e ↦ rw e (relabel ed _ _ _ _ ok)
      ]

  answer_overwrite-Keeps :
      (filename : List ℕ) (ed : Editor) (v : Volume) (answered : Option (Bool × List ℕ))
      → IsValid ed
      → Keeps (answer_overwrite fat filename ed v answered)
  unfolding answer_overwrite
  answer_overwrite-Keeps filename ed v none ok = tt
  answer_overwrite-Keeps filename ed v (some (true, keys)) ok =
      write_file-Keeps filename ed keys v ok
  answer_overwrite-Keeps filename ed v (some (false, keys)) ok = relabel ed _ _ _ _ ok

  -- Both branches of a test keep the invariant.
  pub Keeps-if :
      (b : Bool) (x y : Option (Editor × List ℕ × Volume))
      → Keeps x
      → Keeps y
      → Keeps (if b then x else y)
  Keeps-if true x y p q = p
  Keeps-if false x y p q = q

  check_target-Keeps :
      (filename : List ℕ) (ed : Editor) (keys : List ℕ) (v : Volume)
      → IsValid ed
      → Keeps (check_target fat filename ed keys v)
  unfolding check_target
  check_target-Keeps filename ed keys v ok =
      let got = f_stat filename v in
      let written = write_file-Keeps filename ed keys got.2 ok in
      Keeps-if (is_ok got.0) _ _
        (Keeps-if got.1.is_dir _ _ (relabel ed _ _ _ _ ok) (
          Keeps-if ed.has_filename _ _ written
            (answer_overwrite-Keeps filename _ got.2 (confirm keys) (relabel ed _ _ _ _ ok))))
        (Keeps-if (is_no_file got.0) _ _ written (relabel ed _ _ _ _ ok))

  save_as-Keeps :
      (ed : Editor) (v : Volume) (answered : Option (Bool × List ℕ × List ℕ))
      → IsValid ed
      → Keeps (save_as fat ed v answered)
  unfolding save_as
  save_as-Keeps ed v none ok = tt
  save_as-Keeps ed v (some (true, filename, keys)) ok = check_target-Keeps filename ed keys v ok
  save_as-Keeps ed v (some (false, filename, keys)) ok = relabel ed _ _ _ _ ok

  pub save_file-Keeps :
      (ed : Editor) (keys : List ℕ) (v : Volume) → IsValid ed → Keeps (save_file fat ed keys v)
  unfolding save_file
  save_file-Keeps ed keys v ok =
      Keeps-if ed.has_filename _ _ (check_target-Keeps ed.current_filename ed keys v ok)
        (save_as-Keeps _ v (read_filename keys []) (relabel ed _ _ _ _ ok))

  -- What opening leaves is valid; with the cursor at the start if a file was opened.
  abbrev pub Shows : Option (Bool × Editor × List ℕ × Volume) → Type 0
  Shows none = Unit
  Shows (some (opened, ed, keys, v)) =
      IsValid (if opened then record ed { cursor_x = 0; cursor_y = 0 } else ed)

  Shows-if :
      (b : Bool) (x y : Option (Bool × Editor × List ℕ × Volume))
      → Shows x
      → Shows y
      → Shows (if b then x else y)
  Shows-if true x y p q = p
  Shows-if false x y p q = q

  from_start :
      (ed : Editor) (status : List ℕ × ℕ)
      → Fits ed.doc
      → IsValid (record ed { cursor_x = 0; cursor_y = 0; status = status })
  from_start ed status f = record {
    fits = f;
    on_line = omega (arith, f.some_line);
    in_line = omega arith;
  }

  report_load-Shows :
      (filename keys : List ℕ) (ed : Editor) (out : Option (LoadStatus × FResult × Editor × Volume))
      → IsValid ed
      → Loads fat ed out
      → Shows (report_load fat filename keys out)
  unfolding report_load
  report_load-Shows filename keys ed none ok h = tt
  report_load-Shows filename keys ed (some (load_ok, error, ed', v)) ok h =
      from_start ed' _ (opened-Fits fat ed ed' error v h)
  report_load-Shows filename keys ed (some (too_large, error, ed', v)) ok h =
      relabel ed' _ _ _ _ (not_opened-IsValid fat too_large ed ed' error v refl ok h)
  report_load-Shows filename keys ed (some (invalid_text, error, ed', v)) ok h =
      relabel ed' _ _ _ _ (not_opened-IsValid fat invalid_text ed ed' error v refl ok h)
  report_load-Shows filename keys ed (some (filesystem_error, error, ed', v)) ok h =
      relabel ed' _ _ _ _ (not_opened-IsValid fat filesystem_error ed ed' error v refl ok h)

  open_named-Shows :
      (fuel : ℕ) (ed : Editor) (v : Volume) (answered : Option (Bool × List ℕ × List ℕ))
      → IsValid ed
      → Shows (open_named fat fuel ed v answered)
  unfolding open_named
  open_named-Shows fuel ed v none ok = tt
  open_named-Shows fuel ed v (some (true, filename, keys)) ok =
      report_load-Shows filename keys ed _ ok (load_document-Loads fat fuel filename ed v)
  open_named-Shows fuel ed v (some (false, filename, keys)) ok = relabel ed _ _ _ _ ok

  choose_file-Shows :
      (fuel : ℕ) (ed : Editor) (keys : List ℕ) (v : Volume)
      → IsValid ed
      → Shows (choose_file fat fuel ed keys v)
  unfolding choose_file
  choose_file-Shows fuel ed keys v ok =
      open_named-Shows fuel _ v (read_filename keys []) (relabel ed _ _ _ _ ok)

  answer_discard-Shows :
      (fuel : ℕ) (ed : Editor) (v : Volume) (answered : Option (Bool × List ℕ))
      → IsValid ed
      → Shows (answer_discard fat fuel ed v answered)
  unfolding answer_discard
  answer_discard-Shows fuel ed v none ok = tt
  answer_discard-Shows fuel ed v (some (true, keys)) ok = choose_file-Shows fuel ed keys v ok
  answer_discard-Shows fuel ed v (some (false, keys)) ok = relabel ed _ _ _ _ ok

  pub open_file-Shows :
      (fuel : ℕ) (ed : Editor) (keys : List ℕ) (v : Volume)
      → IsValid ed
      → Shows (open_file fat fuel ed keys v)
  unfolding open_file
  open_file-Shows fuel ed keys v ok =
      Shows-if ed.has_unsaved_changes _ _
        (answer_discard-Shows fuel _ v (confirm keys) (relabel ed _ _ _ _ ok))
        (choose_file-Shows fuel ed keys v ok)
