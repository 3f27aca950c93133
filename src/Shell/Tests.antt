-- ===== src/Shell/Tests.antt =====
-- Runs of the shell in src/kernel/kernel.c, and the theorems at these inputs.
use my_dos.Base.{
  ℕ, ◌+◌, ◌≤◌, ◌≡◌, refl, arith, List, [], ◌∷◌, ◌++◌, codes, none, some, ◌==◌, if◌then◌else◌,
  length,
}
use my_dos.Vga.{default_theme}
use my_dos.CString.{equals, strcmp}
use my_dos.Console.{Console, scrl, at-OnScreen}
use my_dos.Keyboard.{at_boot}
use my_dos.Rtc.{Registers}
use my_dos.FatFs.Memory.{memory}
use my_dos.FsHelpers.{fs_init, try_volumes, try_volume, note_mount, choose_volume}
use my_dos.Disk.Ports.{Ports}
use my_dos.Shell.State.{Platform, Shell}
use my_dos.Shell.Times.{uptime_text, clock_uptime}
use my_dos.Shell.Commands.{running, run_command}
use my_dos.Shell.Loop.{
  Key, backspace, type_character, handle_key, end_command, continue, shell_loop,
}
use my_dos.Shell.Start.{start_shell, start_files, first_state, first_console}
use my_dos.Shell.Invariant.{Ready, shell_loop-Ready}
use my_dos.Shell.Starting.{start_shell-Ready}
use my_dos.Shell.Typing.{typed, type_all, shell_loop-command}
use my_dos.Shell.Widths.{uptime_text-fits}

abbrev quiet : Ports
quiet = record {
  World = ℕ;
  inb = λ port w. (0, w);
  inw = λ port w. (0, w);
  outb = λ port value w. value;
  outw = λ port value w. w;
}

-- Only the drive 2 answers.
abbrev machine : Platform
machine = record {
  fat = memory;
  disk_status = λ n v. if n == 2 then 0 else 1;
  disk_initialize = λ n v. (if n == 2 then 0 else 1, v);
  ports = quiet;
  ebx = 0x756E6547;
  ecx = 0x6C65746E;
  edx = 0x49656E69;
  ram = λ address. 0;
  mbi = 0;
  fuel = 4;
}

abbrev midnight : Registers
midnight register = 0

abbrev console : Console
console = record { words = λ i. 0; theme = default_theme; cursor_y = 24 }

abbrev shell : Shell machine
shell = record {
  console = console;
  cursor_x = 16;
  cursor = (16, 24);
  cmd = [];
  uptime = 0;
  keyboard = at_boot;
  cells = λ y x. 0;
  volume = none;
  world = 0;
}

shell-Ready : Ready machine shell
shell-Ready = record {
  fits = omega arith;
  behind = refl;
  row = at-OnScreen console (omega arith);
  shown = refl;
}

abbrev two_keys : List Key
two_keys = (b'h', midnight) ∷ (8, midnight) ∷ []

abbrev erased : Shell machine
erased = backspace machine (type_character machine b'h' shell)

two_keys_run : shell_loop machine 2 two_keys shell ≡ running erased
unfolding shell_loop handle_key
two_keys_run = refl

shell_loop-Ready_example : Ready machine erased
shell_loop-Ready_example = shell_loop-Ready machine 2 two_keys shell erased shell-Ready two_keys_run

abbrev started : Shell machine
started = first_state machine midnight (λ y x. 0) at_boot 0 (first_console machine (λ i. 0)) none

start_run : start_shell machine midnight [] (λ i. 0) (λ y x. 0) at_boot none 0 ≡ some ([], started)
unfolding start_shell start_files fs_init try_volumes try_volume note_mount choose_volume
start_run = refl

start_shell-Ready_example : Ready machine started
start_shell-Ready_example =
    start_shell-Ready machine midnight [] [] (λ i. 0) (λ y x. 0) at_boot none 0 started start_run

shell_loop-command_example :
    (let line = codes "echo" ++ 32 ∷ codes "hi" in
      let t = type_all machine line shell in
      shell_loop machine (length line + 1) (typed midnight line ++ (10, midnight) ∷ []) shell
      ≡ continue machine (shell_loop machine 0) [] (
          end_command machine (
            run_command machine midnight
              (codes "echo")
              (codes "hi")
              (record t { console = scrl t.console }))))
shell_loop-command_example =
    shell_loop-command machine (codes "echo") (codes "hi") midnight 0 [] shell refl (ground arith)
      (ground arith) (omega arith)

uptime_run : uptime_text 61 [] ≡ codes "00:01:01"
unfolding uptime_text clock_uptime equals strcmp
uptime_run = refl

uptime_text-fits_example : length (uptime_text 90061 (codes "-p") ++ 0 ∷ []) ≤ 64
uptime_text-fits_example = uptime_text-fits 90061 (codes "-p") (omega arith)
