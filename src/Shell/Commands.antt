-- ===== src/Shell/Commands.antt =====
-- The commands of src/kernel/kernel.c: what each does to the state of the shell.
use my_dos.Base.{ℕ, ◌+◌, not, ◌||◌, List, Option, none, some, replicate, ◌==◌, if◌then◌else◌}
use my_dos.Kernel.{red, green, white, light_grey}
use my_dos.CString.{equals, head_or_zero, itoanum}
use my_dos.Vga.{Words, change_theme}
use my_dos.Vga.Logo.{print_logo, print_logo_at}
use my_dos.Console.{Console, write_text, scrl, clear}
use my_dos.Keyboard.{Keyboard, load_layout, get_layout_name}
use my_dos.Rtc.{Registers, elapsed_uptime_seconds, format_short_uptime}
use my_dos.Speaker.{pc_speaker_beep}
use my_dos.Hardware.{cpuid_vendor, get_total_ram_mb, shutdown}
use my_dos.Descriptors.{isr_handler}
use my_dos.Shell.State.{Platform, Shell}
use my_dos.Shell.Help.{say, help}
use my_dos.Shell.Fetch.{fetch}
use my_dos.Shell.Times.{date, uptime}
use my_dos.Shell.Echo.{echo}
use my_dos.Shell.Files.{mkfile, mkdir, rm, ls, lsdrv, cd, cat, pwd}

-- clear_screen(); print_logo(); cursor_y = 7;
abbrev pub show_logo : Console → Console
show_logo c = let c' = clear c in record c' { words = print_logo c'.theme c'.words; cursor_y = 7 }

unfoldable pub clear_command : List ℕ → Console → Console
clear_command args c =
    if equals args "-dl" || equals args "--draw-logo"
    then show_logo c
    else record (clear c) { cursor_y = 0 }

unfoldable pub change_theme_command : List ℕ → Console → Console
change_theme_command args c =
    let (changed, theme) = change_theme args c.theme in
    if head_or_zero args == 0 || not changed
    then scrl (
        say "default, matrix, ocean, sunset" light_grey
          (scrl (say "Please choose one of the built-in themes mentioned below:" white c)))
    else show_logo (record c { theme = theme })

unfoldable pub loadkeys : List ℕ → Keyboard → Console → Keyboard × Console
loadkeys args kb c =
    let (loaded, kb') = load_layout args kb in
    if equals args "status"
    then (
      kb,
      scrl (write_text (get_layout_name kb) green 24 (say "Active keyboard layout: " white c)),
    )
    else if head_or_zero args == 0
    then (
      kb,
      scrl (
          say "Available layouts: us, de, fr; use 'status' to check the active layout." white
            (scrl (say "Usage: loadkeys <us|de|fr|status>" red c))),
    )
    else if loaded
    then (kb', scrl (write_text (get_layout_name kb') green 19 (say "Keyboard layout: " white c)))
    else (kb', scrl (say "loadkeys: unsupported layout. Try us, de, or fr." red c))

-- print_logo_at(0, cursor_y); cursor_y += 6; scrl(&cursor_y);
unfoldable pub shlogo : Console → Console
shlogo c =
    scrl
      (record c { words = print_logo_at 0 c.cursor_y c.theme c.words; cursor_y = c.cursor_y + 6 })

module _ (p : Platform) where
  -- What becomes of the shell: it goes on, it runs the editor, the processor has halted with a screen,
  -- or a loop over files did not end within the fuel.
  pub data Outcome : Type 0 where
    running editing : Shell p → Outcome
    stopped : Words → Outcome
    out_of_fuel : Outcome

  abbrev pub with_console : Shell p → Console → Outcome
  with_console s c = running (record s { console = c })

  abbrev pub with_volume : Shell p → Console × p.fat.Volume → Outcome
  with_volume s (c, v) = running (record s { console = c; volume = v })

  abbrev pub with_done : Shell p → Option (Console × p.fat.Volume) → Outcome
  with_done s none = out_of_fuel
  with_done s (some done) = with_volume s done

  unfoldable pub fetch_command : Registers → Shell p → Outcome
  fetch_command rtc_read s = elim (get_total_ram_mb p.fuel p.ram p.mbi) [
    | none ↦ out_of_fuel
    | some ram_mb ↦ with_console s (
        fetch (cpuid_vendor p.ebx p.ecx p.edx) (itoanum ram_mb (replicate 32 0))
          (format_short_uptime (elapsed_uptime_seconds rtc_read s.uptime)) s.console)
  ]

  -- An instruction that faults leads to the panic screen.
  unfoldable pub raise : ℕ → Shell p → Outcome
  raise vector s = elim (isr_handler vector 0 s.console.theme s.console.words) [
    | none ↦ running s
    | some screen ↦ stopped screen
  ]

  unfoldable pub fault : List ℕ → Shell p → Outcome
  fault args s =
      if equals args "zero" || equals args "de"
      then raise 0 s
      else if equals args "ud"
      then raise 6 s
      else with_console s (scrl (say "Usage: fault <zero|ud>" red s.console))

  -- The commands on files.
  unfoldable pub file_command : List ℕ → List ℕ → Shell p → Option Outcome
  file_command cmd args s =
      let c = s.console in
      let v = s.volume in
      if equals cmd "mkfile"
      then some (with_volume s (mkfile p.fat args c v))
      else if equals cmd "rm"
      then some (with_done s (rm p.fat p.fuel args c v))
      else if equals cmd "mkdir"
      then some (with_volume s (mkdir p.fat args c v))
      else if equals cmd "ls"
      then some (with_done s (ls p.fat p.fuel args c v))
      else if equals cmd "lsdrv"
      then some (with_volume s (lsdrv p.fat p.disk_status p.disk_initialize args c v))
      else if equals cmd "cd"
      then some (with_volume s (cd p.fat args c v))
      else if equals cmd "cat"
      then some (with_done s (cat p.fat p.fuel args c v))
      else if equals cmd "myeditor"
      then some (editing s)
      else if equals cmd "pwd"
      then some (with_volume s (pwd p.fat c v))
      else none

  -- The commands after those on files.
  unfoldable pub last_command : List ℕ → List ℕ → Shell p → Outcome
  last_command cmd args s =
      if equals cmd "shtdwn"
      then stopped (shutdown s.console.theme s.console.words)
      else if equals cmd "fault"
      then fault args s
      else if equals cmd "rbt"
      then running (record s { world = p.ports.outb 0x64 0xFE s.world })
      else if not (head_or_zero cmd == 0)
      then with_console s
          (scrl (say "trml: unknown command, try again or run 'help' for assistance" red s.console))
      else running s

  unfoldable pub run_command : Registers → List ℕ → List ℕ → Shell p → Outcome
  run_command rtc_read cmd args s =
      let c = s.console in
      let elapsed = elapsed_uptime_seconds rtc_read s.uptime in
      if equals cmd "help"
      then with_console s (help args c)
      else if equals cmd "clear"
      then with_console s (clear_command args c)
      else if equals cmd "change-theme"
      then with_console s (change_theme_command args c)
      else if equals cmd "loadkeys"
      then (let (kb, c') = loadkeys args s.keyboard c in
          running (record s { keyboard = kb; console = c' }))
      else if equals cmd "echo"
      then with_console s (echo args c)
      else if equals cmd "fetch"
      then fetch_command rtc_read s
      else if equals cmd "date"
      then with_console s (date rtc_read args c)
      else if equals cmd "uptime"
      then with_console s (uptime elapsed args c)
      else if equals cmd "beep"
      then running
          (record s { world = pc_speaker_beep p.ports s.world; console = say "BEEP! :>" green c })
      else if equals cmd "shlogo"
      then with_console s (shlogo c)
      else elim (file_command cmd args s) [
        | none ↦ last_command cmd args s
        | some outcome ↦ outcome
      ]
