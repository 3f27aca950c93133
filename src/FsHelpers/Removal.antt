-- ===== src/FsHelpers/Removal.antt =====
-- `rm_recursive` of src/kernel/helper/fshelpers/fshelpers.c against what removing a tree means.
use my_dos.Base.{ℕ, ◌≡◌, true, false, List, Option, none, some, ◌==◌}
use my_dos.CString.{head_or_zero}
use my_dos.FatFs.{FatFs, FResult, FileInfo, fr_ok, is_ok}
use my_dos.FsHelpers.{join_path}
use my_dos.FsHelpers.Removing.{is_dots}

module _ (fat : FatFs) where
  open fat use {Volume, Dir, f_stat, f_unlink, f_opendir, f_readdir, f_closedir}

  -- Removing a path takes a volume to another: a file is unlinked, and a directory is unlinked and
  -- its entries are removed before. Every call succeeds, and the calls follow one another.
  mutual
    pub data Removes : List ℕ → Volume → Volume → Type 0 where
      file :
          {path : List ℕ} {v v1 v' : Volume} (info : FileInfo)
          → f_stat path v ≡ (fr_ok, info, v1)
          → info.is_dir ≡ false
          → f_unlink path v1 ≡ (fr_ok, v')
          → Removes path v v'
      directory :
          {path : List ℕ} {v v1 v2 v3 v' : Volume} (info : FileInfo) (dir dir' : Dir)
          → f_stat path v ≡ (fr_ok, info, v1)
          → info.is_dir ≡ true
          → f_opendir path v1 ≡ (fr_ok, dir, v2)
          → RemovesAll path dir v2 dir' v3
          → f_unlink path (f_closedir dir' v3).1 ≡ (fr_ok, v')
          → Removes path v v'

    -- Removing the entries that a directory still gives.
    pub data RemovesAll : List ℕ → Dir → Volume → Dir → Volume → Type 0 where
      end :
          {path : List ℕ} {dir dir' : Dir} {v v' : Volume} (info : FileInfo)
          → f_readdir dir v ≡ (fr_ok, info, dir', v')
          → (head_or_zero info.fname == 0) ≡ true
          → RemovesAll path dir v dir' v'
      dots :
          {path : List ℕ} {dir dir1 dir' : Dir} {v v1 v' : Volume} (info : FileInfo)
          → f_readdir dir v ≡ (fr_ok, info, dir1, v1)
          → (head_or_zero info.fname == 0) ≡ false
          → is_dots info.fname ≡ true
          → RemovesAll path dir1 v1 dir' v'
          → RemovesAll path dir v dir' v'
      entry :
          {path : List ℕ} {dir dir1 dir' : Dir} {v v1 v2 v' : Volume} (info : FileInfo)
          → f_readdir dir v ≡ (fr_ok, info, dir1, v1)
          → (head_or_zero info.fname == 0) ≡ false
          → is_dots info.fname ≡ false
          → Removes (join_path 280 path info.fname) v1 v2
          → RemovesAll path dir1 v2 dir' v'
          → RemovesAll path dir v dir' v'

  -- What a success means.
  abbrev Sound : List ℕ → Volume → Option (FResult × Volume) → Type 0
  Sound path v none = Unit
  Sound path v (some out) = is_ok out.0 ≡ true → Removes path v out.1

  abbrev SoundAll : List ℕ → Dir → Volume → Option (FResult × Dir × Volume) → Type 0
  SoundAll path dir v none = Unit
  SoundAll path dir v (some out) = is_ok out.0 ≡ true → RemovesAll path dir v out.1 out.2
