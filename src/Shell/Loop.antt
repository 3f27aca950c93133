-- ===== src/Shell/Loop.antt =====
-- `KernelEntryPoint` of src/kernel/kernel.c: the loop over the keys. A key is what
-- `keyboard_getchar` returns, with the registers of the clock at that time.
use my_dos.Base.{
  ℕ, zero, suc, ◌+◌, ◌-◌, ◌&&◌, List, [], ◌∷◌, ◌++◌, Option, none, some, map, ltb, ◌==◌,
  if◌then◌else◌, length, take, drop,
}
use my_dos.Kernel.{white}
use my_dos.Console.{write, write_text, scrl, clear}
use my_dos.Rtc.{Registers}
use my_dos.Editor.Session.{Editor}
use my_dos.Editor.Loop.{fresh_editor, session}
use my_dos.Shell.State.{Platform, Shell, prompt, prompt_length}
use my_dos.Shell.Echo.{split_space}
use my_dos.Shell.Commands.{Outcome, running, editing, stopped, out_of_fuel, run_command}

abbrev pub Key : Type 0
Key = ℕ × Registers

module _ (p : Platform) where
  -- The prompt that ends a round, with an empty command.
  unfoldable pub end_round : Shell p → Shell p
  end_round s = record s {
    console = prompt s.console;
    cursor_x = prompt_length;
    cmd = [];
    cursor = (prompt_length, s.console.cursor_y);
  }

  -- A round that a command ends; the others leave the loop.
  abbrev pub end_command : Outcome p → Outcome p
  end_command (running s) = running (end_round s)
  end_command (editing s) = editing s
  end_command (stopped words) = stopped words
  end_command out_of_fuel = out_of_fuel

  unfoldable pub backspace : Shell p → Shell p
  backspace s =
      if ltb prompt_length s.cursor_x && ltb 0 (length s.cmd)
      then record s {
        cmd = take (length s.cmd - 1) s.cmd;
        cursor_x = s.cursor_x - 1;
        console = write_text " " white (s.cursor_x - 1) s.console;
        cursor = (s.cursor_x - 1, s.console.cursor_y);
      }
      else s

  unfoldable pub type_character : ℕ → Shell p → Shell p
  type_character c s =
      if ltb (length s.cmd) 63
      then record s {
        cmd = s.cmd ++ c ∷ [];
        console = write (c ∷ []) white s.cursor_x s.console;
        cursor_x = s.cursor_x + 1;
        cursor = (s.cursor_x + 1, s.console.cursor_y);
      }
      else s

  unfoldable pub enter : Registers → Shell p → Outcome p
  enter rtc_read s =
      let (cmd, args) = split_space s.cmd in
      end_command (run_command p rtc_read cmd args (record s { console = scrl s.console }))

  unfoldable pub handle_key : Key → Shell p → Outcome p
  handle_key (c, rtc_read) s =
      if c == 0
      then running s
      else if c == 8
      then running (backspace s)
      else if c == 10
      then enter rtc_read s
      else running (type_character c s)

  -- What the shell is after the editor, which leaves a clear screen.
  unfoldable pub after_editor : Shell p → Editor → p.fat.Volume → Shell p
  after_editor s ed v = end_round (record s {
    cells = ed.cells;
    volume = v;
    console = record (clear s.console) { cursor_y = 0 };
  })

  -- What the editor leaves, with the keys that it took from those that follow.
  abbrev pub resume :
      (List Key → Shell p → Outcome p)
      → List Key
      → Shell p
      → Option (Editor × List ℕ × p.fat.Volume)
      → Outcome p
  resume next keys s none = editing s
  resume next keys s (some (ed, left, v)) =
      next (drop (length keys - length left) keys) (after_editor s ed v)

  -- After a key: the next round, or the editor's session and then the next round.
  abbrev pub continue : (List Key → Shell p → Outcome p) → List Key → Outcome p → Outcome p
  continue next keys (running s) = next keys s
  continue next keys (editing s) =
      resume next keys s
        (session p.fat (length keys) p.fuel (fresh_editor s.cells) (map (λ k. k.0) keys) s.volume)
  continue next keys (stopped words) = stopped words
  continue next keys out_of_fuel = out_of_fuel

  -- The loop, with as many rounds as there are keys at most: each takes one, and the editor takes those
  -- up to its F3. If the keys end, the shell or the editor waits for more.
  unfoldable pub shell_loop : ℕ → List Key → Shell p → Outcome p
  shell_loop zero keys s = running s
  shell_loop (suc n) [] s = running s
  shell_loop (suc n) (key ∷ keys) s = continue (shell_loop n) keys (handle_key key s)
