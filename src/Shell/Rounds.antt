-- ===== src/Shell/Rounds.antt =====
-- What the commands of src/kernel/kernel.c leave of the shell, as far as the screen is concerned.
use my_dos.Base.{replicate, ℕ, Bool, true, false, List, Option, none, some, if◌then◌else◌}
use my_dos.CString.{itoanum}
use my_dos.Kernel.{green}
use my_dos.Console.{Console, OnScreen, scrl-OnScreen, write-OnScreen}
use my_dos.Rtc.{Registers, format_short_uptime, elapsed_uptime_seconds}
use my_dos.Vga.{Words}
use my_dos.Descriptors.{isr_handler}
use my_dos.Hardware.{get_total_ram_mb, cpuid_vendor}
use my_dos.Shell.Fetch.{fetch}
use my_dos.Shell.State.{Platform, Shell}
use my_dos.Shell.Commands.{
  Outcome, running, editing, stopped, out_of_fuel, with_console, with_volume, with_done,
  fetch_command, raise, fault, file_command, last_command, run_command,
}
use my_dos.Shell.OnScreen.{
  help-OnScreen, clear_command-OnScreen, change_theme_command-OnScreen, loadkeys-OnScreen,
  echo-OnScreen, date-OnScreen, uptime-OnScreen, shlogo-OnScreen, fetch-OnScreen,
}
use my_dos.Shell.FilesOnScreen.{
  Stays, ends, lsdrv-OnScreen, mkfile-OnScreen, mkdir-OnScreen, cd-OnScreen, pwd-OnScreen, rm-Stays,
  ls-Stays, cat-Stays,
}

module _ (p : Platform) where
  -- A shell that goes on has its cursor on the screen.
  pub data Shown : Outcome p → Type 0 where
    runs : (s : Shell p) → OnScreen s.console → Shown (running s)
    edits : (s : Shell p) → Shown (editing s)
    stops : (words : Words) → Shown (stopped words)
    exhausted : Shown out_of_fuel

  Shown-if : (b : Bool) (x y : Outcome p) → Shown x → Shown y → Shown (if b then x else y)
  Shown-if true x y h k = h
  Shown-if false x y h k = k

  with_console-Shown : (s : Shell p) (c : Console) → OnScreen c → Shown (with_console p s c)
  with_console-Shown s c h = runs (record s { console = c }) h

  with_volume-Shown :
      (s : Shell p) (r : Console × p.fat.Volume) → OnScreen r.0 → Shown (with_volume p s r)
  with_volume-Shown s (c, v) h = runs (record s { console = c; volume = v }) h

  with_done-Shown :
      (s : Shell p) (done : Option (Console × p.fat.Volume))
      → Stays done
      → Shown (with_done p s done)
  with_done-Shown s none h = exhausted
  with_done-Shown s (some (c, v)) (ends _ _ h) = runs (record s { console = c; volume = v }) h

  fetch_command-Shown : (r : Registers) (s : Shell p) → Shown (fetch_command p r s)
  unfolding fetch_command
  fetch_command-Shown r s = sized (get_total_ram_mb p.fuel p.ram p.mbi)
    where
      sized :
          (size : Option ℕ)
          → Shown (elim size [
            | none ↦ out_of_fuel
            | some ram_mb ↦ with_console p s (
                fetch
                  (cpuid_vendor p.ebx p.ecx p.edx)
                  (itoanum ram_mb (replicate 32 0))
                  (format_short_uptime (elapsed_uptime_seconds r s.uptime))
                  s.console)
          ])
      sized none = exhausted
      sized (some ram_mb) = with_console-Shown s _ (fetch-OnScreen _ _ _ s.console)

  raise-Shown : (vector : ℕ) (s : Shell p) → OnScreen s.console → Shown (raise p vector s)
  unfolding raise
  raise-Shown vector s h = caught (isr_handler vector 0 s.console.theme s.console.words)
    where
      caught :
          (screen : Option Words)
          → Shown (elim screen [ none ↦ running s | some words ↦ stopped words ])
      caught none = runs s h
      caught (some words) = stops words

  fault-Shown : (args : List ℕ) (s : Shell p) → OnScreen s.console → Shown (fault p args s)
  unfolding fault
  fault-Shown args s h =
      Shown-if _ _ _ (raise-Shown 0 s h)
        (Shown-if _ _ _ (raise-Shown 6 s h) (with_console-Shown s _ (scrl-OnScreen _)))

  last_command-Shown :
      (cmd args : List ℕ) (s : Shell p) → OnScreen s.console → Shown (last_command p cmd args s)
  unfolding last_command
  last_command-Shown cmd args s h = Shown-if _ _ _ (stops _) (
      Shown-if _ _ _ (fault-Shown args s h) (
        Shown-if _ _ _ (runs _ h)
          (Shown-if _ _ _ (with_console-Shown s _ (scrl-OnScreen _)) (runs s h))))

  -- A command on files, if it is one.
  pub data Handles : Option (Outcome p) → Type 0 where
    handled : (o : Outcome p) → Shown o → Handles (some o)
    passed_on : Handles none

  Handles-if :
      (b : Bool) (x y : Option (Outcome p)) → Handles x → Handles y → Handles (if b then x else y)
  Handles-if true x y h k = h
  Handles-if false x y h k = k

  file_command-Handles :
      (cmd args : List ℕ) (s : Shell p) → OnScreen s.console → Handles (file_command p cmd args s)
  unfolding file_command
  file_command-Handles cmd args s h =
      let c = s.console in
      let v = s.volume in
      Handles-if _ _ _ (handled _ (with_volume-Shown s _ (mkfile-OnScreen p.fat args c v))) (
        Handles-if _ _ _ (handled _ (with_done-Shown s _ (rm-Stays p.fat p.fuel args c v))) (
          Handles-if _ _ _ (handled _ (with_volume-Shown s _ (mkdir-OnScreen p.fat args c v))) (
            Handles-if _ _ _ (handled _ (with_done-Shown s _ (ls-Stays p.fat p.fuel args c v h))) (
              Handles-if _ _ _
                (handled _ (
                  with_volume-Shown s _
                    (lsdrv-OnScreen p.fat p.disk_status p.disk_initialize args c v)))
                (Handles-if _ _ _ (handled _ (with_volume-Shown s _ (cd-OnScreen p.fat args c v h)))
                  (Handles-if _ _ _
                    (handled _ (with_done-Shown s _ (cat-Stays p.fat p.fuel args c v h)))
                    (Handles-if _ _ _ (handled _ (edits s)) (
                      Handles-if _ _ _ (handled _ (with_volume-Shown s _ (pwd-OnScreen p.fat c v)))
                        passed_on))))))))

  passed-Shown :
      (cmd args : List ℕ) (s : Shell p) (tried : Option (Outcome p))
      → OnScreen s.console
      → Handles tried
      → Shown (elim tried [ none ↦ last_command p cmd args s | some outcome ↦ outcome ])
  passed-Shown cmd args s none h k = last_command-Shown cmd args s h
  passed-Shown cmd args s (some o) h (handled _ k) = k

  pub run_command-Shown :
      (r : Registers) (cmd args : List ℕ) (s : Shell p)
      → OnScreen s.console
      → Shown (run_command p r cmd args s)
  unfolding run_command
  run_command-Shown r cmd args s h =
      let c = s.console in
      Shown-if _ _ _ (with_console-Shown s _ (help-OnScreen args c)) (
        Shown-if _ _ _ (with_console-Shown s _ (clear_command-OnScreen args c)) (
          Shown-if _ _ _ (with_console-Shown s _ (change_theme_command-OnScreen args c)) (
            Shown-if _ _ _ (runs _ (loadkeys-OnScreen args s.keyboard c)) (
              Shown-if _ _ _ (with_console-Shown s _ (echo-OnScreen args c)) (
                Shown-if _ _ _ (fetch_command-Shown r s) (
                  Shown-if _ _ _ (with_console-Shown s _ (date-OnScreen r args c)) (
                    Shown-if _ _ _ (with_console-Shown s _ (uptime-OnScreen _ args c)) (
                      Shown-if _ _ _ (runs _ (write-OnScreen _ green 0 c h)) (
                        Shown-if _ _ _ (with_console-Shown s _ (shlogo-OnScreen c))
                          (passed-Shown cmd args s _ h (file_command-Handles cmd args s h)))))))))))
