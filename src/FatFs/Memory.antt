-- ===== src/FatFs/Memory.antt =====
-- A FatFs for the examples: a disk in memory that keeps one file, whatever name it is given. It
-- shows that the promises of FatFs/Laws.antt can be kept.
use my_dos.Base.{ℕ, ◌≡◌, refl, ◌∷◌, ◌++◌, List, [], Option, none, some, length, take, drop, false}
use my_dos.FatFs.{
  FatFs, FResult, fr_ok, fr_no_file, fr_exist, fr_no_path, OpenMode, read, create_new,
  create_always, FileInfo,
}
use my_dos.FatFs.Laws.{FileLaws}

-- An open file.
pub record Handle : Type 0 where
  pub path : List ℕ
  pub output : List ℕ
  pub input : List ℕ

abbrev contents : Option (List ℕ) → List ℕ
contents none = []
contents (some bytes) = bytes

abbrev open_memory : List ℕ → OpenMode → Option (List ℕ) → FResult × Handle × Option (List ℕ)
open_memory p create_always v = (fr_ok, record { path = p; output = []; input = [] }, v)
open_memory p create_new v = (fr_exist, record { path = p; output = []; input = [] }, v)
open_memory p read none = (fr_no_file, record { path = p; output = []; input = [] }, none)
open_memory p read (some bytes) =
    (fr_ok, record { path = p; output = []; input = bytes }, some bytes)

abbrev no_info : FileInfo
no_info = record { fname = []; is_dir = false }

abbrev pub memory : FatFs
memory = record {
  Volume = Option (List ℕ);
  File = Handle;
  Dir = ℕ;
  f_open = open_memory;
  f_close = λ f v. (fr_ok, some f.output);
  f_read = λ n f v. (fr_ok, take n f.input, record f { input = drop n f.input }, v);
  f_write = λ bytes f v. (fr_ok, length bytes, record f { output = f.output ++ bytes }, v);
  f_stat = λ p v. (fr_no_file, no_info, v);
  f_unlink = λ p v. (fr_ok, none);
  f_opendir = λ p v. (fr_no_path, 0, v);
  f_readdir = λ d v. (fr_ok, no_info, d, v);
  f_closedir = λ d v. (fr_ok, v);
  f_mount = λ n p v. (fr_ok, v);
  f_chdrive = λ p v. (fr_ok, v);
  f_mkfs = λ p v. (fr_ok, none);
  f_mkdir = λ p v. (fr_exist, v);
  f_chdir = λ p v. (fr_no_path, v);
  f_getcwd = λ size v. (fr_ok, b'/' ∷ [], v);
  f_getlabel = λ p v. (fr_ok, [], v);
}

pub open_read_memory :
    (p bytes : List ℕ) (v : Option (List ℕ))
    → v ≡ some bytes
    → (open_memory p read v).0 ≡ fr_ok
    → (open_memory p read v).1.input ≡ bytes
open_read_memory p bytes none h e = cc h
open_read_memory p bytes (some b) h e = cc h

abbrev pub memory_laws : FileLaws memory
memory_laws = record {
  stored = λ p v. v;
  path_of = λ f. f.path;
  written = λ f v. f.output;
  unread = λ f v. f.input;
  open_create = λ p v h. (refl, refl);
  write_ok = λ bytes f v h e. (refl, refl);
  close_ok = λ f v h. refl;
  open_read = open_read_memory;
  read_ok = λ n f v h. (refl, refl);
}
