-- ===== src/Shell/Starting.antt =====
-- The start of the shell in `KernelEntryPoint`, src/kernel/kernel.c.
use my_dos.Base.{
  ℕ, ◌≡◌, refl, arith, Bool, true, false, not, List, Option, none, some, if◌then◌else◌, subst, sym,
  ap, ◌∙◌,
}
use my_dos.Kernel.{red}
use my_dos.Vga.{Words}
use my_dos.Console.{
  Console, OnScreen, scrl, scrl-OnScreen, at-OnScreen, OnScreen-if, write_text, clear,
}
use my_dos.Rtc.{Registers}
use my_dos.FatFs.{FResult, is_ok, is_no_filesystem}
use my_dos.FsHelpers.{fs_init}
use my_dos.Keyboard.{Keyboard}
use my_dos.Shell.Help.{say}
use my_dos.Shell.State.{Platform, Shell, prompt, prompt_length}
use my_dos.Shell.Loop.{Key}
use my_dos.Shell.Start.{
  read_answer, format_error_message, answered, offer_format, is_not_ready, start_files, welcome,
  Going, first_state, first_console, start_loop, start_shell,
}
use my_dos.Shell.Invariant.{Ready, prompt-row}

welcome-row : (c : Console) → (welcome c).cursor_y ≡ c.cursor_y
unfolding welcome
welcome-row c = refl

module _ (p : Platform) where
  -- The console is on the screen, if the start goes on.
  abbrev StartsOn : Option (List Key × Console × p.fat.Volume) → Type 0
  StartsOn none = Unit
  StartsOn (some out) = OnScreen out.1

  StartsOn-if :
      (b : Bool) (x y : Option (List Key × Console × p.fat.Volume))
      → StartsOn x
      → StartsOn y
      → StartsOn (if b then x else y)
  StartsOn-if true x y h k = h
  StartsOn-if false x y h k = k

  answered-StartsOn :
      (c : Console) (v : p.fat.Volume) (made : FResult × p.fat.Volume)
      (answer : Option (Bool × List Key))
      → OnScreen c
      → StartsOn (answered p c v made answer)
  answered-StartsOn c v made none h = tt
  answered-StartsOn c v (result, v') (some (true, keys)) h =
      OnScreen-if (is_ok result) c (scrl (write_text (format_error_message result) red 0 c)) h
        (scrl-OnScreen _)
  answered-StartsOn c v made (some (false, keys)) h = scrl-OnScreen _

  offer_format-StartsOn :
      (active : ℕ) (keys : List Key) (c : Console) (v : p.fat.Volume)
      → StartsOn (offer_format p active keys c v)
  unfolding offer_format
  offer_format-StartsOn active keys c v =
      answered-StartsOn _ v _ (read_answer keys) (scrl-OnScreen _)

  start_files-StartsOn :
      (keys : List Key) (c : Console) (v : p.fat.Volume)
      → OnScreen c
      → StartsOn (start_files p keys c v)
  unfolding start_files
  start_files-StartsOn keys c v h =
      let (result, active, v') = fs_init p.fat p.disk_initialize 0 v in
      StartsOn-if (is_no_filesystem result) (offer_format p active keys c v') _
        (offer_format-StartsOn active keys c v')
        (StartsOn-if (is_not_ready result)
          (some (keys, scrl (say "No usable disk detected." red c), v')) _ (scrl-OnScreen _)
          (StartsOn-if (not (is_ok result))
            (some (keys, scrl (say "MyDOS couldn't access the disk." red c), v'))
            (some (keys, c, v')) (scrl-OnScreen _) h))

  first_console-OnScreen : (words : Words) → OnScreen (first_console p words)
  unfolding first_console clear
  first_console-OnScreen words = at-OnScreen _ (omega arith)

  abbrev ReadyIf : Option (List Key × Shell p) → Type 0
  ReadyIf none = Unit
  ReadyIf (some out) = Ready p out.1

  start_loop-ReadyIf :
      (rtc_read : Registers) (cells : ℕ → ℕ → ℕ) (kb : Keyboard) (w : p.ports.World)
      (going : Going p)
      → StartsOn going
      → ReadyIf (start_loop p (first_state p rtc_read cells kb w) going)
  unfolding first_state
  start_loop-ReadyIf rtc_read cells kb w none h = tt
  start_loop-ReadyIf rtc_read cells kb w (some (left, c, v)) h =
      let row : (welcome (prompt c)).cursor_y ≡ c.cursor_y =
        welcome-row (prompt c) ∙ prompt-row c in
      record {
        fits = omega arith;
        behind = refl;
        row = at-OnScreen _ (rw row h.in_rows);
        shown = ap (λ y. (prompt_length, y)) (sym row);
      }

  -- Whatever the screen, the disks and the clock hold at boot, the shell starts ready, once the
  -- question whether to format is answered, if it is asked.
  pub start_shell-Ready :
      (rtc_read : Registers) (keys left : List Key) (words : Words) (cells : ℕ → ℕ → ℕ)
      (kb : Keyboard) (v : p.fat.Volume) (w : p.ports.World) (s : Shell p)
      → start_shell p rtc_read keys words cells kb v w ≡ some (left, s)
      → Ready p s
  unfolding start_shell
  start_shell-Ready rtc_read keys left words cells kb v w s e = subst ReadyIf e (
      start_loop-ReadyIf rtc_read cells kb w _
        (start_files-StartsOn keys (first_console p words) v (first_console-OnScreen words)))
