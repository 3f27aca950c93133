-- ===== src/FatFs.antt =====
-- The FatFs library, as the kernel and its programs call it (src/fs/fatfs/source/ff.h). The library
-- is another project's, so its calls are parameters; only its result codes are listed.
pub mod Laws
pub mod Memory
use my_dos.Base.{ℕ, Bool, true, false, List}

-- `FRESULT`
pub data FResult : Type 0 where
  fr_ok fr_disk_err fr_int_err fr_not_ready fr_no_file fr_no_path fr_invalid_name : FResult
  fr_denied fr_exist fr_invalid_object fr_write_protected fr_invalid_drive : FResult
  fr_not_enabled fr_no_filesystem fr_mkfs_aborted fr_timeout fr_locked : FResult
  fr_not_enough_core fr_too_many_open_files fr_invalid_parameter : FResult

-- The tests `result == FR_OK`, `result == FR_NO_FILE` and so on.
abbrev pub is_ok : FResult → Bool
is_ok fr_ok = true
is_ok _ = false

abbrev pub is_no_file : FResult → Bool
is_no_file fr_no_file = true
is_no_file _ = false

abbrev pub is_no_path : FResult → Bool
is_no_path fr_no_path = true
is_no_path _ = false

abbrev pub is_exist : FResult → Bool
is_exist fr_exist = true
is_exist _ = false

abbrev pub is_no_filesystem : FResult → Bool
is_no_filesystem fr_no_filesystem = true
is_no_filesystem _ = false

-- The combinations of flags that the kernel passes to `f_open`: FA_READ, FA_CREATE_NEW | FA_WRITE
-- and FA_CREATE_ALWAYS | FA_WRITE.
pub data OpenMode : Type 0 where
  read create_new create_always : OpenMode

-- The two fields of `FILINFO` that are used: the name, and AM_DIR of the attributes.
pub record FileInfo : Type 0 where
  pub fname : List ℕ
  pub is_dir : Bool

-- Paths and names are the bytes before the terminating zero. `Volume` is all that the library and
-- the disk remember; a call returns its result, what it writes through pointers, and the new state.
pub record FatFs : Type 1 where
  pub Volume : Type 0
  pub File : Type 0
  pub Dir : Type 0
  pub f_open : List ℕ → OpenMode → Volume → FResult × File × Volume
  pub f_close : File → Volume → FResult × Volume
  pub f_read : ℕ → File → Volume → FResult × List ℕ × File × Volume
  pub f_write : List ℕ → File → Volume → FResult × ℕ × File × Volume
  pub f_stat : List ℕ → Volume → FResult × FileInfo × Volume
  pub f_unlink : List ℕ → Volume → FResult × Volume
  pub f_opendir : List ℕ → Volume → FResult × Dir × Volume
  pub f_readdir : Dir → Volume → FResult × FileInfo × Dir × Volume
  pub f_closedir : Dir → Volume → FResult × Volume
  pub f_mount : ℕ → List ℕ → Volume → FResult × Volume
  pub f_chdrive : List ℕ → Volume → FResult × Volume
  pub f_mkfs : List ℕ → Volume → FResult × Volume
  pub f_mkdir : List ℕ → Volume → FResult × Volume
  pub f_chdir : List ℕ → Volume → FResult × Volume
  pub f_getcwd : ℕ → Volume → FResult × List ℕ × Volume
  pub f_getlabel : List ℕ → Volume → FResult × List ℕ × Volume
