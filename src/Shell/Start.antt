-- ===== src/Shell/Start.antt =====
-- `KernelEntryPoint` of src/kernel/kernel.c: what comes before the loop over the keys.
use my_dos.Base.{
  ℕ, ◌||◌, not, Bool, true, false, List, [], ◌∷◌, Option, none, some, String, codes, ◌==◌,
  if◌then◌else◌,
}
use my_dos.Kernel.{white, green, red, yellow}
use my_dos.Vga.{Words, default_theme}
use my_dos.Vga.Logo.{print_logo}
use my_dos.Console.{Console, write_text, scrl, clear}
use my_dos.Rtc.{Registers, bcdtb, rtcts}
use my_dos.FatFs.{
  FResult, fr_disk_err, fr_not_ready, fr_write_protected, fr_mkfs_aborted, is_ok, is_no_filesystem,
}
use my_dos.FsHelpers.{fs_init, fs_format}
use my_dos.Keyboard.{Keyboard, load_layout}
use my_dos.Shell.Help.{say}
use my_dos.Shell.State.{Platform, Shell, prompt, prompt_length}
use my_dos.Shell.Loop.{Key}

unfoldable pub format_error_message : FResult → String
format_error_message fr_disk_err = "FAT32 format failed: disk I/O error."
format_error_message fr_not_ready = "FAT32 format failed: disk not ready."
format_error_message fr_write_protected = "FAT32 format failed: disk is write-protected."
format_error_message fr_mkfs_aborted = "FAT32 format failed: disk could not be formatted."
format_error_message _ = "FAT32 format failed: filesystem error."

unfoldable pub is_yes : ℕ → Bool
is_yes answer = answer == b'y' || answer == b'Y'

unfoldable pub is_answer : ℕ → Bool
is_answer answer = is_yes answer || (answer == b'n' || answer == b'N')

-- The keys up to an answer are passed over; `none` means that none came.
unfoldable pub read_answer : List Key → Option (Bool × List Key)
read_answer [] = none
read_answer (key ∷ keys) =
    let rest = read_answer keys in if is_answer key.0 then some (is_yes key.0, keys) else rest

abbrev pub is_not_ready : FResult → Bool
is_not_ready fr_not_ready = true
is_not_ready _ = false

-- print(text, color, 0, y)
abbrev pub say_at : String → ℕ → ℕ → Console → Console
say_at text color y c = record (write_text text color 0 (record c { cursor_y = y })) {
  cursor_y = c.cursor_y;
}

unfoldable pub welcome : Console → Console
welcome c =
    let c1 = say_at "Welcome and thank you for trying out MyDOS!" white 7 c in
    let c2 =
      say_at "Keep in mind that it is still in beta, so there will not be many features" white 8
        c1 in
    let c3 =
      say_at "and there might be bugs. If you can, check out my GitHub repository at: " white 9
        c2 in
    let c4 = say_at "---https://github.com/Avianca17/MyDOS---" green 10 c3 in
    say_at "That's all from me! Type 'help' to see available commands." white 11 c4

module _ (p : Platform) where
  -- What the start goes on with: the keys that are left, the console and the volume; `none` means that
  -- no answer came.
  abbrev pub Going : Type 0
  Going = Option (List Key × Console × p.fat.Volume)

  -- After the question: `made` is what formatting returns.
  abbrev pub answered :
      Console → p.fat.Volume → FResult × p.fat.Volume → Option (Bool × List Key) → Going
  answered c v made none = none
  answered c v (result, v') (some (true, keys)) = some (
    keys,
    if is_ok result then c else scrl (write_text (format_error_message result) red 0 c),
    v',
  )
  answered c v made (some (false, keys)) = some (keys, scrl (say "Disk left unchanged." white c), v)

  unfoldable pub offer_format : ℕ → List Key → Console → p.fat.Volume → Going
  offer_format active keys c v =
      answered (scrl (say "No recognized filesystem. Format this disk to FAT32? [y/N]" yellow c)) v
        (fs_format p.fat active v) (read_answer keys)

  unfoldable pub start_files : List Key → Console → p.fat.Volume → Going
  start_files keys c v =
      let (result, active, v') = fs_init p.fat p.disk_initialize 0 v in
      if is_no_filesystem result
      then offer_format active keys c v'
      else if is_not_ready result
      then some (keys, scrl (say "No usable disk detected." red c), v')
      else if not (is_ok result)
      then some (keys, scrl (say "MyDOS couldn't access the disk." red c), v')
      else some (keys, c, v')

  -- The state in which the loop starts.
  unfoldable pub first_state :
      Registers → (ℕ → ℕ → ℕ) → Keyboard → p.ports.World → Console → p.fat.Volume → Shell p
  first_state rtc_read cells kb w c v = record {
    console = welcome (prompt c);
    cursor_x = prompt_length;
    cursor = (prompt_length, c.cursor_y);
    cmd = [];
    uptime = rtcts (bcdtb (rtc_read 0x04)) (bcdtb (rtc_read 0x02)) (bcdtb (rtc_read 0x00));
    keyboard = (load_layout (codes "de") kb).1;
    cells = cells;
    volume = v;
    world = w;
  }

  -- clear_screen(); print_logo(); int cursor_y = 13;
  unfoldable pub first_console : Words → Console
  first_console words =
      let c = clear (record { words = words; theme = default_theme; cursor_y = 13 }) in
      record c { words = print_logo c.theme c.words }

  abbrev pub start_loop : (Console → p.fat.Volume → Shell p) → Going → Option (List Key × Shell p)
  start_loop enter none = none
  start_loop enter (some (keys, c, v)) = some (keys, enter c v)

  unfoldable pub start_shell :
      Registers
      → List Key
      → Words
      → (ℕ → ℕ → ℕ)
      → Keyboard
      → p.fat.Volume
      → p.ports.World
      → Option (List Key × Shell p)
  start_shell rtc_read keys words cells kb v w =
      start_loop (first_state rtc_read cells kb w) (start_files keys (first_console words) v)
