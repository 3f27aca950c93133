-- ===== src/Editor/Loop.antt =====
-- `myeditor` of src/programs/myeditor/myeditor.c: the loop over the keys.
use my_dos.Base.{
  ℕ, zero, suc, ◌+◌, ◌-◌, Bool, false, List, [], ◌∷◌, Option, none, some, ltb, ◌==◌, if◌then◌else◌,
}
use my_dos.Kernel.{light_grey}
use my_dos.FatFs.{FatFs}
use my_dos.Editor.Document.{editor_columns}
use my_dos.Editor.Session.{Editor, key_f1, key_f2, key_f3, edit_key}
use my_dos.Editor.Prompts.{save_file, open_file}

-- The assignments at the start of `myeditor`. The cells keep what an earlier session left.
abbrev pub fresh_editor : (ℕ → ℕ → ℕ) → Editor
fresh_editor cells = record {
  doc = record { cells = cells; line_lengths = λ y. 0; line_count = 1 };
  current_filename = [];
  has_filename = false;
  has_unsaved_changes = false;
  cursor_x = 0;
  cursor_y = 0;
  status = ([], light_grey);
}

-- Where the hardware cursor is put after a key.
unfoldable pub display_position : Editor → ℕ × ℕ
display_position ed = (
  if ltb (1 + editor_columns - 1) (1 + ed.cursor_x)
      then 1 + editor_columns - 1
      else 1 + ed.cursor_x,
  3 + ed.cursor_y,
)

module _ (fat : FatFs) where
  open fat use {Volume}

  -- A file that was opened is shown from its start.
  unfoldable pub after_open :
      Option (Bool × Editor × List ℕ × Volume) → Option (Editor × List ℕ × Volume)
  after_open none = none
  after_open (some (opened, ed, keys, v)) =
      some (if opened then record ed { cursor_x = 0; cursor_y = 0 } else ed, keys, v)

  -- One key other than F3; `fuel` bounds the loop that reads a file.
  unfoldable pub handle_key : ℕ → ℕ → Editor → List ℕ → Volume → Option (Editor × List ℕ × Volume)
  handle_key fuel key ed keys v =
      if key == 0
      then some (ed, keys, v)
      else if key == key_f1
      then save_file fat ed keys v
      else if key == key_f2
      then after_open (open_file fat fuel ed keys v)
      else some (edit_key key ed, keys, v)

  -- The session up to F3: the state in which the editor is left. The rounds are bounded by the
  -- number of keys, since each round takes one; `none` means that no F3 came.
  unfoldable pub session : ℕ → ℕ → Editor → List ℕ → Volume → Option (Editor × List ℕ × Volume)
  session zero fuel ed keys v = none
  session (suc n) fuel ed [] v = none
  session (suc n) fuel ed (key ∷ keys) v =
      let rest : Option (Editor × List ℕ × Volume) = elim (handle_key fuel key ed keys v) [
        | none ↦ none
        | some (ed', keys', v') ↦ session n fuel ed' keys' v'
      ] in
      if key == key_f3 then some (ed, keys, v) else rest
