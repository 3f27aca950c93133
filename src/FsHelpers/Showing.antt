-- ===== src/FsHelpers/Showing.antt =====
-- `cat_file` of src/kernel/helper/fshelpers/fshelpers.c.
use my_dos.Base.{
  ℕ, zero, suc, ◌+◌, not, ◌||◌, List, [], ◌∷◌, Option, none, some, ltb, ◌==◌, if◌then◌else◌, length,
}
use my_dos.Kernel.{vga_width, white}
use my_dos.Console.{Console, write, scrl}
use my_dos.FatFs.{FatFs, FResult, fr_ok, is_ok, read}

-- The local variable `cursor_x`, and the console.
pub record View : Type 0 where
  pub column : ℕ
  pub console : Console

-- if (cursor_x == VGA_WIDTH) { cursor_x = 0; scrl(cursor_y); }
abbrev pub wrap : View → View
wrap s = if s.column == vga_width then record { column = 0; console = scrl s.console } else s

-- The body of the loop over the bytes.
unfoldable pub show_byte : ℕ → View → View
show_byte ch s =
    if ch == 13
    then s
    else if ch == 10
    then record { column = 0; console = scrl s.console }
    else record {
      column = (wrap s).column + 1;
      console = write (ch ∷ []) white (wrap s).column (wrap s).console;
    }

unfoldable pub show_bytes : List ℕ → View → View
show_bytes [] s = s
show_bytes (ch ∷ bytes) s = show_bytes bytes (show_byte ch s)

-- if (cursor_x > 0) scrl(cursor_y);
unfoldable pub end_row : View → Console
end_row s = if ltb 0 s.column then scrl s.console else s.console

module _ (fat : FatFs) where
  open fat use {Volume, File, f_open, f_close, f_read}

  -- The loop over the chunks; it runs on fuel, and `none` means that it ran out.
  unfoldable pub show_chunks : ℕ → File → View → Volume → Option (View × File × Volume)
  show_chunks zero file s v = none
  show_chunks (suc fuel) file s v =
      let (res, bytes, file', v') = f_read 128 file v in
      let rest = show_chunks fuel file' (show_bytes bytes s) v' in
      if not (is_ok res) || length bytes == 0 then some (s, file', v') else rest

  unfoldable pub cat_file : ℕ → List ℕ → Console → Volume → Option (FResult × Console × Volume)
  cat_file fuel path c v =
      let (res, file, v1) = f_open path read v in
      let shown = show_chunks fuel file (record { column = 0; console = c }) v1 in
      if not (is_ok res) then some (res, c, v1) else elim shown [
        | none ↦ none
        | some (s, file', v2) ↦ some (fr_ok, end_row s, (f_close file' v2).1)
      ]
