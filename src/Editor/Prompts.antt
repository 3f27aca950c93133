-- ===== src/Editor/Prompts.antt =====
-- The parts of src/programs/myeditor/myeditor.c that talk to the user while a file is saved or
-- opened. The keyboard is the list of the codes that it still delivers; `none` means that the code
-- waits for a key that does not come.
use my_dos.Base.{
  ℕ, ◌-◌, ◌&&◌, ◌||◌, Bool, true, false, List, [], ◌∷◌, ◌++◌, Option, none, some, String, codes,
  ltb, leb, ◌==◌, if◌then◌else◌, length, take,
}
use my_dos.Kernel.{light_grey, yellow, red, green}
use my_dos.FatFs.{
  FatFs, FResult, fr_disk_err, fr_not_ready, fr_no_path, fr_invalid_name, fr_denied,
  fr_write_protected, fr_no_filesystem, fr_no_file, is_ok, is_no_file,
}
use my_dos.Editor.Loader.{LoadStatus, load_ok, too_large, invalid_text, filesystem_error}
use my_dos.Editor.Session.{Editor}
use my_dos.Editor.Storage.{save_document, load_document}

abbrev pub editor_filename_max : ℕ
editor_filename_max = 32

abbrev pub show_status : List ℕ → ℕ → Editor → Editor
show_status message color ed = record ed { status = (message, color) }

unfoldable pub save_error_message : FResult → String
save_error_message fr_disk_err = "Save failed: disk error."
save_error_message fr_not_ready = "Save failed: disk not ready."
save_error_message fr_no_path = "Save failed: path not found."
save_error_message fr_invalid_name = "Save failed: invalid filename."
save_error_message fr_denied = "Save failed: write denied."
save_error_message fr_write_protected = "Save failed: disk is write-protected."
save_error_message fr_no_filesystem = "Save failed: no filesystem."
save_error_message _ = "Save failed: filesystem error."

unfoldable pub open_error_message : FResult → String
open_error_message fr_disk_err = "Open failed: disk error."
open_error_message fr_not_ready = "Open failed: disk not ready."
open_error_message fr_no_path = "Open failed: path not found."
open_error_message fr_invalid_name = "Open failed: invalid filename."
open_error_message fr_no_file = "Open failed: file not found."
open_error_message fr_denied = "Open failed: cannot read file."
open_error_message fr_no_filesystem = "Open failed: no filesystem."
open_error_message _ = "Open failed: filesystem error."

-- What one key does to the name that is typed: the keys that neither end nor cancel it.
unfoldable pub edit_name : ℕ → List ℕ → List ℕ
edit_name key name =
    if key == 8
    then take (length name - 1) name
    else if leb 32 key && leb key 126 && ltb (length name) editor_filename_max
    then name ++ key ∷ []
    else name

-- The answer of `read_filename` (its result, and the name) or of a question, with the keys left.
-- An empty name counts as cancelled.
unfoldable pub read_filename : List ℕ → List ℕ → Option (Bool × List ℕ × List ℕ)
unfolding edit_name
read_filename [] name = none
read_filename (key ∷ keys) name =
    let rest = read_filename keys (if key == 0 then name else edit_name key name) in
    if key == 0x1B
    then some (false, name, keys)
    else if key == 10 || key == 13
    then some (ltb 0 (length name), name, keys)
    else rest

-- `confirm_overwrite` and `confirm_discard_changes` after their question.
unfoldable pub confirm : List ℕ → Option (Bool × List ℕ)
confirm [] = none
confirm (key ∷ keys) =
    let rest = confirm keys in
    if key == b'y' || key == b'Y'
    then some (true, keys)
    else if key == b'n' || key == b'N' || key == 0x1B
    then some (false, keys)
    else rest

module _ (fat : FatFs) where
  open fat use {Volume, f_stat}

  -- What a part of the editor leaves: its state, the keys not yet pressed and the disk.
  abbrev pub Outcome : Type 0
  Outcome = Option (Editor × List ℕ × Volume)

  -- The last part of `save_file`: the document is written.
  unfoldable pub write_file : List ℕ → Editor → List ℕ → Volume → Outcome
  write_file filename ed keys v =
      let (result, v') = save_document fat filename ed.doc v in
      if is_ok result
      then some (
        show_status (codes "Saved: " ++ filename) green (record ed {
          current_filename = filename;
          has_filename = true;
          has_unsaved_changes = false;
        }),
        keys,
        v',
      )
      else some (show_status (codes (save_error_message result)) red ed, keys, v')

  -- What follows the question whether to overwrite.
  unfoldable pub answer_overwrite : List ℕ → Editor → Volume → Option (Bool × List ℕ) → Outcome
  answer_overwrite filename ed v none = none
  answer_overwrite filename ed v (some (answer, keys)) =
      if answer
      then write_file filename ed keys v
      else some (show_status (codes "Save cancelled.") yellow ed, keys, v)

  -- The middle part: what is at the path decides.
  unfoldable pub check_target : List ℕ → Editor → List ℕ → Volume → Outcome
  check_target filename ed keys v =
      let (stat_result, info, v') = f_stat filename v in
      if is_ok stat_result
      then if info.is_dir
        then some (show_status (codes "Cannot save: path is a directory.") red ed, keys, v')
        else if ed.has_filename
        then write_file filename ed keys v'
        else answer_overwrite filename
            (show_status (codes "File exists. Overwrite? (y/n)") yellow ed) v' (confirm keys)
      else if is_no_file stat_result
      then write_file filename ed keys v'
      else some (show_status (codes (save_error_message stat_result)) red ed, keys, v')

  -- What follows the question for a name.
  unfoldable pub save_as : Editor → Volume → Option (Bool × List ℕ × List ℕ) → Outcome
  save_as ed v none = none
  save_as ed v (some (entered, filename, keys)) =
      if entered
      then check_target filename ed keys v
      else some (show_status (codes "Save cancelled.") yellow ed, keys, v)

  unfoldable pub save_file : Editor → List ℕ → Volume → Outcome
  save_file ed keys v =
      if ed.has_filename
      then check_target ed.current_filename ed keys v
      else save_as (show_status [] light_grey ed) v (read_filename keys [])

  -- `open_file` also returns whether a file was opened.
  abbrev pub OpenOutcome : Type 0
  OpenOutcome = Option (Bool × Editor × List ℕ × Volume)

  -- The message for what `load_document` returned, and whether the file was opened.
  unfoldable pub report_load :
      List ℕ → List ℕ → Option (LoadStatus × FResult × Editor × Volume) → OpenOutcome
  report_load filename keys none = none
  report_load filename keys (some (load_ok, error, ed, v)) =
      some (true, show_status (codes "Opened: " ++ filename) green ed, keys, v)
  report_load filename keys (some (too_large, error, ed, v)) =
      some (false, show_status (codes "Open failed: document too large.") red ed, keys, v)
  report_load filename keys (some (invalid_text, error, ed, v)) =
      some (false, show_status (codes "Open failed: unsupported text.") red ed, keys, v)
  report_load filename keys (some (filesystem_error, error, ed, v)) =
      some (false, show_status (codes (open_error_message error)) red ed, keys, v)

  -- What follows the question for a name; `fuel` bounds the loop over the file.
  unfoldable pub open_named : ℕ → Editor → Volume → Option (Bool × List ℕ × List ℕ) → OpenOutcome
  open_named fuel ed v none = none
  open_named fuel ed v (some (entered, filename, keys)) =
      if entered
      then report_load filename keys (load_document fat fuel filename ed v)
      else some (false, show_status (codes "Open cancelled.") yellow ed, keys, v)

  unfoldable pub choose_file : ℕ → Editor → List ℕ → Volume → OpenOutcome
  choose_file fuel ed keys v =
      open_named fuel (show_status [] light_grey ed) v (read_filename keys [])

  -- What follows the question whether to discard the changes.
  unfoldable pub answer_discard : ℕ → Editor → Volume → Option (Bool × List ℕ) → OpenOutcome
  answer_discard fuel ed v none = none
  answer_discard fuel ed v (some (answer, keys)) =
      if answer
      then choose_file fuel ed keys v
      else some (false, show_status (codes "Open cancelled; changes kept.") yellow ed, keys, v)

  unfoldable pub open_file : ℕ → Editor → List ℕ → Volume → OpenOutcome
  open_file fuel ed keys v =
      if ed.has_unsaved_changes
      then answer_discard fuel (show_status (codes "Discard unsaved changes? (y/n)") yellow ed) v
          (confirm keys)
      else choose_file fuel ed keys v
