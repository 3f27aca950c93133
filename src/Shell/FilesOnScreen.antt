-- ===== src/Shell/FilesOnScreen.antt =====
-- The commands of src/kernel/kernel.c on files leave the cursor on the screen.
use my_dos.Base.{
  ℕ, zero, suc, Bool, true, false, not, ◌||◌, List, Option, none, some, ◌==◌, if◌then◌else◌, codes,
  Bool-cases, inl, inr,
}
use my_dos.CString.{head_or_zero}
use my_dos.Kernel.{red}
use my_dos.Console.{Console, OnScreen, scrl, scrl-OnScreen, OnScreen-if}
use my_dos.FatFs.{FatFs, FResult, is_ok, is_no_file, is_no_path}
use my_dos.FsHelpers.Listing.{list_entries, list_files}
use my_dos.FsHelpers.Showing.{cat_file}
use my_dos.FsHelpers.Chunks.{cat_file-StaysOn, StaysOn}
use my_dos.Shell.Help.{say}
use my_dos.Shell.Files.{mkfile, mkdir, rm, ls, lsdrv, cd, cat, pwd, Done, then_scrl}

-- The console is a part of what is returned.
first-if {ℓ} :
    {A : Type ℓ} (b : Bool) (x y : Console × A)
    → OnScreen x.0
    → OnScreen y.0
    → OnScreen (if b then x else y).0
first-if true x y h k = h
first-if false x y h k = k

-- What a command on files leaves is on the screen, if it ends.
pub data Stays {ℓ} {A : Type ℓ} : Option (Console × A) → Type ℓ where
  ends : (c : Console) (v : A) → OnScreen c → Stays (some (c, v))
  goes_on : Stays none

Stays-if {ℓ} :
    {A : Type ℓ} (b : Bool) (x y : Option (Console × A))
    → Stays x
    → Stays y
    → Stays (if b then x else y)
Stays-if true x y h k = h
Stays-if false x y h k = k

module _ (fat : FatFs) where
  open fat use {Volume, Dir, f_opendir, f_readdir, f_closedir, f_chdir}

  pub mkfile-OnScreen :
      (args : List ℕ) (c : Console) (v : Volume) → OnScreen (mkfile fat args c v).0
  unfolding mkfile
  mkfile-OnScreen args c v = search (first-if, scrl-OnScreen)

  pub mkdir-OnScreen : (args : List ℕ) (c : Console) (v : Volume) → OnScreen (mkdir fat args c v).0
  unfolding mkdir
  mkdir-OnScreen args c v = search (first-if, scrl-OnScreen)

  pub cd-OnScreen :
      (args : List ℕ) (c : Console) (v : Volume) → OnScreen c → OnScreen (cd fat args c v).0
  unfolding cd
  cd-OnScreen args c v h = elim (Bool-cases (head_or_zero args == 0)) [
    | inl e ↦ rw e (scrl-OnScreen _)
    | inr e ↦ rw e (
        OnScreen-if (is_no_path (f_chdir args v).0) (scrl (say "cd: Directory not found" red c)) c
          (scrl-OnScreen _) h)
  ]

  pub pwd-OnScreen : (c : Console) (v : Volume) → OnScreen (pwd fat c v).0
  unfolding pwd
  pwd-OnScreen c v = scrl-OnScreen _

  then_scrl-Stays : (done : Done fat) → Stays (then_scrl fat done)
  then_scrl-Stays none = goes_on
  then_scrl-Stays (some (c, v)) = ends (scrl c) v (scrl-OnScreen c)

  pub rm-Stays :
      (fuel : ℕ) (args : List ℕ) (c : Console) (v : Volume) → Stays (rm fat fuel args c v)
  unfolding rm
  rm-Stays fuel args c v = then_scrl-Stays _

  -- The console among the results of listing and showing.
  abbrev ListsOn : Option (FResult × Console × Dir × Volume) → Type 0
  ListsOn none = Unit
  ListsOn (some out) = OnScreen out.1

  list_entries-ListsOn :
      (fuel : ℕ) (dir : Dir) (c : Console) (v : Volume)
      → OnScreen c
      → ListsOn (list_entries fat fuel dir c v)
  unfolding list_entries
  list_entries-ListsOn zero dir c v h = tt
  list_entries-ListsOn (suc fuel) dir c v h =
      let got = f_readdir dir v in
      elim (Bool-cases (not (is_ok got.0) || head_or_zero got.1.fname == 0)) [
        | inl e ↦ rw e h
        | inr e ↦ rw e (list_entries-ListsOn fuel got.2 _ got.3 (scrl-OnScreen _))
      ]

  list_files-StaysOn :
      (fuel : ℕ) (path : List ℕ) (c : Console) (v : Volume)
      → OnScreen c
      → StaysOn fat (list_files fat fuel path c v)
  unfolding list_files
  list_files-StaysOn fuel path c v h =
      let opened = f_opendir path v in
      elim (Bool-cases (is_ok opened.0)) [
        | inr e ↦ rw e h
        | inl e ↦ rw e (
            closed (list_entries fat fuel opened.1 c opened.2)
              (list_entries-ListsOn fuel opened.1 c opened.2 h))
      ]
    where
      closed :
          (out : Option (FResult × Console × Dir × Volume))
          → ListsOn out
          → StaysOn fat (elim out [
            | none ↦ none
            | some (res, c', dir', v2) ↦ some (res, c', (f_closedir dir' v2).1)
          ])
      closed none k = tt
      closed (some (res, c', dir', v2)) k = k

  pub ls-Stays :
      (fuel : ℕ) (args : List ℕ) (c : Console) (v : Volume)
      → OnScreen c
      → Stays (ls fat fuel args c v)
  unfolding ls
  ls-Stays fuel args c v h = elim (Bool-cases (head_or_zero args == 0)) [
    | inr e ↦ rw e (ends _ v (scrl-OnScreen _))
    | inl e ↦
        rw e
          (listed (list_files fat fuel (codes ".") c v) (list_files-StaysOn fuel (codes ".") c v h))
  ]
    where
      listed :
          (out : Option (FResult × Console × Volume))
          → StaysOn fat out
          → Stays (elim out [
            | none ↦ none
            | some (result, c', v') ↦ some (
              if not (is_ok result) then scrl (say "ls: Could not list files." red c') else c',
              v',
            )
          ])
      listed none k = goes_on
      listed (some (result, c', v')) k = ends _ v' (
          OnScreen-if (not (is_ok result)) (scrl (say "ls: Could not list files." red c')) c'
            (scrl-OnScreen _) k)

  pub cat-Stays :
      (fuel : ℕ) (args : List ℕ) (c : Console) (v : Volume)
      → OnScreen c
      → Stays (cat fat fuel args c v)
  unfolding cat
  cat-Stays fuel args c v h = elim (Bool-cases (head_or_zero args == 0)) [
    | inl e ↦ rw e (ends _ v (scrl-OnScreen _))
    | inr e ↦ rw e (shown (cat_file fat fuel args c v) (cat_file-StaysOn fat fuel args c v h))
  ]
    where
      shown :
          (out : Option (FResult × Console × Volume))
          → StaysOn fat out
          → Stays (elim out [
            | none ↦ none
            | some (res, c', v') ↦ some (
              if is_no_file res || is_no_path res
                  then scrl (say "cat: File not found." red c')
                  else if not (is_ok res)
                  then scrl (say "cat: Error reading file." red c')
                  else c',
              v',
            )
          ])
      shown none k = goes_on
      shown (some (res, c', v')) k = ends _ v' (
          OnScreen-if (is_no_file res || is_no_path res) (scrl (say "cat: File not found." red c'))
            _ (scrl-OnScreen _)
            (OnScreen-if (not (is_ok res)) (scrl (say "cat: Error reading file." red c')) c'
              (scrl-OnScreen _) k))

  module _ (disk_status : ℕ → Volume → ℕ) (disk_initialize : ℕ → Volume → ℕ × Volume) where
    pub lsdrv-OnScreen :
        (args : List ℕ) (c : Console) (v : Volume)
        → OnScreen (lsdrv fat disk_status disk_initialize args c v).0
    unfolding lsdrv
    lsdrv-OnScreen args c v = search (first-if, scrl-OnScreen)
