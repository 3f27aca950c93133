-- ===== src/Editor/Storage.antt =====
-- `save_document` and `load_document` of src/programs/myeditor/myeditor.c, over the calls of FatFs.
use my_dos.Base.{
  ℕ, zero, suc, ◌+◌, ◌&&◌, true, false, not, List, [], ◌∷◌, Option, none, some, ltb, ◌==◌,
  if◌then◌else◌, length,
}
use my_dos.FatFs.{FatFs, FResult, fr_ok, fr_disk_err, is_ok, read, create_always}
use my_dos.Editor.Document.{Document}
use my_dos.Editor.Lines.{line}
use my_dos.Editor.Loader.{
  LoadStatus, load_ok, filesystem_error, is_load_ok, Loader, start, load_bytes,
}
use my_dos.Editor.Session.{Editor}

-- `static const char newline[]` without its terminator
abbrev pub newline : List ℕ
newline = 13 ∷ 10 ∷ []

-- The load buffer becomes the document.
abbrev pub adopt : List ℕ → Loader → Editor → Editor
adopt filename s ed = record ed {
  doc = record {
    cells = s.load_buffer;
    line_lengths = s.load_line_lengths;
    line_count = s.loaded_line_count;
  };
  current_filename = filename;
  has_filename = true;
  has_unsaved_changes = false;
}

module _ (fat : FatFs) where
  open fat use {Volume, File, f_open, f_close, f_read, f_write}

  -- A write of which a part is missing is a disk error.
  unfoldable pub write_all : List ℕ → File → Volume → FResult × File × Volume
  write_all bytes file v =
      let (result, bytes_written, file', v') = f_write bytes file v in
      (
        if is_ok result && not (bytes_written == length bytes) then fr_disk_err else result,
        file',
        v',
      )

  -- The two writes of one round of the loop over the rows.
  unfoldable pub write_line : Document → ℕ → File → Volume → FResult × File × Volume
  write_line doc row file v =
      if ltb 0 (doc.line_lengths row) then write_all (line doc row) file v else (fr_ok, file, v)

  unfoldable pub write_newline : Document → ℕ → File → Volume → FResult × File × Volume
  write_newline doc row file v =
      if ltb (row + 1) doc.line_count then write_all newline file v else (fr_ok, file, v)

  unfoldable pub write_row : Document → ℕ → File → Volume → FResult × File × Volume
  write_row doc row file v =
      let (result, file', v') = write_line doc row file v in
      if is_ok result then write_newline doc row file' v' else (result, file', v')

  -- The rows from `row` on, `n` of them; an error leaves the loop.
  unfoldable pub write_rows : ℕ → Document → ℕ → File → Volume → FResult × File × Volume
  write_rows zero doc row file v = (fr_ok, file, v)
  write_rows (suc n) doc row file v =
      let (result, file', v') = write_row doc row file v in
      let rest = write_rows n doc (row + 1) file' v' in
      if is_ok result then rest else (result, file', v')

  unfoldable pub save_document : List ℕ → Document → Volume → FResult × Volume
  save_document filename doc v =
      let (opened, file, v') = f_open filename create_always v in
      if is_ok opened
      then (let (result, file', v'') = write_rows doc.line_count doc 0 file v' in
          let (close_result, v''') = f_close file' v'' in
          (if is_ok result then close_result else result, v'''))
      else (opened, v')

  -- The loop over the reads. It ends at the end of the file, at an error, or at a byte that the
  -- scanner refuses; `none` means that the fuel ran out.
  unfoldable pub load_chunks :
      ℕ → Loader → FResult → File → Volume → Option (Loader × FResult × File × Volume)
  load_chunks zero s error file v = none
  load_chunks (suc n) s error file v =
      let (result, bytes, file', v') = f_read 128 file v in
      let next = load_bytes bytes s in
      let rest = load_chunks n next error file' v' in
      if not (is_ok result)
      then some (record s { status = filesystem_error }, result, file', v')
      else if length bytes == 0
      then some (s, error, file', v')
      else if is_load_ok next.status
      then rest
      else some (next, error, file', v')

  -- After the loop: the file is closed, and the document changes only if nothing failed.
  unfoldable pub finish_load :
      List ℕ → Loader → FResult → File → Editor → Volume → LoadStatus × FResult × Editor × Volume
  finish_load filename s error file ed v =
      let (close_result, v') = f_close file v in
      if is_load_ok s.status
      then if is_ok close_result
        then (load_ok, error, adopt filename s ed, v')
        else (filesystem_error, close_result, ed, v')
      else (s.status, error, ed, v')

  -- The status, `*filesystem_error`, and the new state; `none` if the fuel ran out.
  unfoldable pub load_document :
      ℕ → List ℕ → Editor → Volume → Option (LoadStatus × FResult × Editor × Volume)
  load_document fuel filename ed v =
      let (opened, file, v') = f_open filename read v in
      if is_ok opened
      then elim (load_chunks fuel start opened file v') [
        | none ↦ none
        | some (s, error, file', v'') ↦ some (finish_load filename s error file' ed v'')
      ]
      else some (filesystem_error, opened, ed, v')
