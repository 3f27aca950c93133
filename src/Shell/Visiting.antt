-- ===== src/Shell/Visiting.antt =====
-- A visit to the editor from the shell of src/kernel/kernel.c, in which a document is only edited.
use my_dos.Base.{◌≡◌, []}
use my_dos.Editor.Session.{Editor}
use my_dos.Shell.State.{Platform, Shell, prompt_length}

module _ (p : Platform) where
  -- The shell after the editor: an empty command at a prompt in the first row, with the editor's
  -- cells and volume, and everything else as it was.
  pub record Returned (s : Shell p) (ed : Editor) (v : p.fat.Volume) (after : Shell p)
      : Type 0 where
    pub no_command : after.cmd ≡ []
    pub at_prompt : after.cursor_x ≡ prompt_length
    pub cursor_shown : after.cursor ≡ (prompt_length, 0)
    pub first_row : after.console.cursor_y ≡ 0
    pub its_cells : after.cells ≡ ed.cells
    pub its_volume : after.volume ≡ v
    pub same_keyboard : after.keyboard ≡ s.keyboard
    pub same_uptime : after.uptime ≡ s.uptime
    pub same_world : after.world ≡ s.world
