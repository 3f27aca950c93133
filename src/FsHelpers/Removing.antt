-- ===== src/FsHelpers/Removing.antt =====
-- `rm_file` and `rm_recursive` of src/kernel/helper/fshelpers/fshelpers.c, and `make_dir`.
use my_dos.Base.{
  ℕ, zero, suc, Bool, not, ◌||◌, ◌&&◌, List, Option, none, some, ◌==◌, if◌then◌else◌, get_or,
}
use my_dos.CString.{head_or_zero}
use my_dos.FatFs.{FatFs, FResult, is_ok}
use my_dos.FsHelpers.{join_path}

-- The names "." and "..", which the loop passes over.
unfoldable pub is_dots : List ℕ → Bool
is_dots name =
    get_or name 0 0 == b'.'
    && (get_or name 1 0 == 0 || (get_or name 1 0 == b'.' && get_or name 2 0 == 0))

module _ (fat : FatFs) where
  open fat use {Volume, Dir, f_stat, f_unlink, f_opendir, f_readdir, f_closedir, f_mkdir}

  unfoldable pub make_dir : List ℕ → Volume → FResult × Volume
  make_dir path v = f_mkdir path v

  unfoldable pub rm_file : List ℕ → Volume → FResult × Volume
  rm_file path v = f_unlink path v

  -- What the loop does after the call of `rm_recursive`, with its next round.
  abbrev pub after_entry :
      Dir
      → (Volume → Option (FResult × Dir × Volume))
      → Option (FResult × Volume)
      → Option (FResult × Dir × Volume)
  after_entry dir next none = none
  after_entry dir next (some (res, v)) = if is_ok res then next v else some (res, dir, v)

  -- The loop over the entries of a directory, where `remove` is the call of `rm_recursive`. It runs
  -- on fuel, and `none` means that it, or a call, ran out.
  unfoldable pub rm_entries :
      ℕ
      → (List ℕ → Volume → Option (FResult × Volume))
      → List ℕ
      → Dir
      → Volume
      → Option (FResult × Dir × Volume)
  rm_entries zero remove path dir v = none
  rm_entries (suc fuel) remove path dir v =
      let (res, info, dir', v') = f_readdir dir v in
      let next = rm_entries fuel remove path dir' in
      if not (is_ok res) || head_or_zero info.fname == 0
      then some (res, dir', v')
      else if is_dots info.fname
      then next v'
      else after_entry dir' next (remove (join_path 280 path info.fname) v')

  -- What follows the loop.
  unfoldable pub finish_rm : List ℕ → Option (FResult × Dir × Volume) → Option (FResult × Volume)
  finish_rm path none = none
  finish_rm path (some (res, dir, v)) =
      let v' = (f_closedir dir v).1 in some (if is_ok res then f_unlink path v' else (res, v'))

  unfoldable pub rm_recursive : ℕ → List ℕ → Volume → Option (FResult × Volume)
  rm_recursive zero path v = none
  rm_recursive (suc fuel) path v =
      let (found, info, v1) = f_stat path v in
      let (opened, dir, v2) = f_opendir path v1 in
      let looped = rm_entries fuel (rm_recursive fuel) path dir v2 in
      if not (is_ok found)
      then some (found, v1)
      else if not info.is_dir
      then some (f_unlink path v1)
      else if not (is_ok opened)
      then some (opened, v2)
      else finish_rm path looped
