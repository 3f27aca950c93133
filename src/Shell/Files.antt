-- ===== src/Shell/Files.antt =====
-- The commands of src/kernel/kernel.c on files and directories.
use my_dos.Base.{ℕ, ◌||◌, not, List, [], ◌∷◌, Option, none, some, codes, ◌==◌, if◌then◌else◌}
use my_dos.Kernel.{red, green, white}
use my_dos.CString.{head_or_zero}
use my_dos.Console.{Console, write, scrl}
use my_dos.FatFs.{FatFs, is_ok, is_exist, is_no_file, is_no_path}
use my_dos.FsHelpers.{make_file}
use my_dos.FsHelpers.Removing.{make_dir, rm_file, rm_recursive}
use my_dos.FsHelpers.Listing.{list_files, list_drives}
use my_dos.FsHelpers.Showing.{cat_file}
use my_dos.Shell.Help.{say}
use my_dos.Shell.Echo.{starts}

-- while (*path && *path != ' ') path++;
unfoldable pub skip_word : List ℕ → List ℕ
skip_word [] = []
skip_word (c ∷ s) = let rest = skip_word s in if c == 0 || c == b' ' then c ∷ s else rest

-- while (*path == ' ') path++;
unfoldable pub skip_spaces : List ℕ → List ℕ
skip_spaces [] = []
skip_spaces (c ∷ s) = let rest = skip_spaces s in if c == b' ' then rest else c ∷ s

module _ (fat : FatFs) where
  open fat use {Volume, f_stat, f_chdir, f_getcwd}

  -- What a command leaves; `none` is a loop that ran out of fuel.
  abbrev pub Done : Type 0
  Done = Option (Console × Volume)

  unfoldable pub mkfile : List ℕ → Console → Volume → Console × Volume
  mkfile args c v =
      let (result, v') = make_file fat args v in
      if head_or_zero args == 0 then (scrl (say "Usage: mkfile <filename>" red c), v) else (
        scrl (
            if is_ok result
            then say "mkfile: File created." green c
            else if is_exist result
            then say "mkfile: File already exists." red c
            else say "mkfile: Could not create file." red c),
        v',
      )

  unfoldable pub mkdir : List ℕ → Console → Volume → Console × Volume
  mkdir args c v =
      let (result, v') = make_dir fat args v in
      if head_or_zero args == 0 then (scrl (say "Usage: mkdir <dirname>" red c), v) else (
        scrl (
            if is_ok result
            then say "mkdir: Directory created." green c
            else if is_exist result
            then say "mkdir: Directory already exists." red c
            else say "mkdir: Could not create directory." red c),
        v',
      )

  -- `rm -r`, with the path behind the option.
  unfoldable pub rm_directory : ℕ → List ℕ → Console → Volume → Done
  rm_directory fuel path c v =
      if head_or_zero path == 0
      then some (say "rm: missing operand after '-r'" red c, v)
      else elim (rm_recursive fat fuel path v) [
        | none ↦ none
        | some (result, v') ↦ some (
          if is_ok result
              then say "rm: Directory removed." green c
              else say "rm: Could not remove directory." red c,
          v',
        )
      ]

  -- `rm` of a file; a directory is refused.
  unfoldable pub rm_plain : List ℕ → Console → Volume → Console × Volume
  rm_plain args c v =
      let (found, info, v1) = f_stat args v in
      let (result, v2) = rm_file fat args v1 in
      if not (is_ok found)
      then (say "rm: File not found." red c, v1)
      else if info.is_dir
      then (say "rm: Cannot remove directory. Use the -r flag." red c, v1)
      else (
        if is_ok result
            then say "rm: File removed." green c
            else say "rm: Could not remove file." red c,
        v2,
      )

  -- The `scrl` that follows each case of `rm`.
  abbrev pub then_scrl : Done → Done
  then_scrl none = none
  then_scrl (some (c, v)) = some (scrl c, v)

  unfoldable pub rm : ℕ → List ℕ → Console → Volume → Done
  rm fuel args c v = then_scrl (
      if head_or_zero args == 0
      then some (say "Usage: rm <filename>" red c, v)
      else if starts args "-r" 2 || starts args "--recursive" 11
      then rm_directory fuel (skip_spaces (skip_word args)) c v
      else some (rm_plain args c v))

  unfoldable pub ls : ℕ → List ℕ → Console → Volume → Done
  ls fuel args c v =
      if not (head_or_zero args == 0)
      then some (scrl (say "Usage: ls" red c), v)
      else elim (list_files fat fuel (codes ".") c v) [
        | none ↦ none
        | some (result, c', v') ↦
            some
              (if not (is_ok result) then scrl (say "ls: Could not list files." red c') else c', v')
      ]

  unfoldable pub cd : List ℕ → Console → Volume → Console × Volume
  cd args c v =
      let (result, v') = f_chdir args v in
      if head_or_zero args == 0
      then (scrl (say "Usage: cd /PATH/TO/DIRECTORY" red c), v)
      else (if is_no_path result then scrl (say "cd: Directory not found" red c) else c, v')

  unfoldable pub cat : ℕ → List ℕ → Console → Volume → Done
  cat fuel args c v =
      if head_or_zero args == 0
      then some (scrl (say "Usage: cat <filename>" red c), v)
      else elim (cat_file fat fuel args c v) [
        | none ↦ none
        | some (res, c', v') ↦ some (
          if is_no_file res || is_no_path res
              then scrl (say "cat: File not found." red c')
              else if not (is_ok res)
              then scrl (say "cat: Error reading file." red c')
              else c',
          v',
        )
      ]

  unfoldable pub pwd : Console → Volume → Console × Volume
  pwd c v =
      let (result, path, v') = f_getcwd 64 v in
      (
        scrl (
            if is_ok result
            then write path white 0 c
            else say "pwd: Error retrieving current working directory." red c),
        v',
      )

  module _ (disk_status : ℕ → Volume → ℕ) (disk_initialize : ℕ → Volume → ℕ × Volume) where
    unfoldable pub lsdrv : List ℕ → Console → Volume → Console × Volume
    lsdrv args c v =
        let (shown, v') = list_drives fat disk_status disk_initialize c v in
        if not (head_or_zero args == 0)
        then (scrl (say "Usage: lsdrv" red c), v)
        else (scrl shown, v')
