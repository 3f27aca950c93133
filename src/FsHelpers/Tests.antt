-- ===== src/FsHelpers/Tests.antt =====
-- Runs of src/kernel/helper/fshelpers/fshelpers.c, and the theorems at these inputs.
use my_dos.Base.{
  ℕ, ◌≡◌, ◌≢◌, refl, arith, List, ◌∷◌, [], ◌++◌, codes, Option, none, some, false, ◌==◌,
  if◌then◌else◌, take, get_or, ◌+◌,
}
use my_dos.Vga.{default_theme}
use my_dos.Console.{Console}
use my_dos.FatFs.{FatFs, fr_ok}
use my_dos.FatFs.Memory.{memory, memory_laws}
use my_dos.FsHelpers.{fs_init, join_path, append_part, append_slash}
use my_dos.FsHelpers.Paths.{NoZero, separator, join_path_lem}
use my_dos.FsHelpers.Showing.{cat_file}
use my_dos.FsHelpers.Rows.{wrap_text, show_rows}
use my_dos.FsHelpers.Chunks.{ReadsAll, cat_file-shows}
use my_dos.FsHelpers.Volumes.{attempts, attempt, fs_init-first}

-- Only the drives 2 and 5 answer.
abbrev answers : ℕ → Option (List ℕ) → ℕ × Option (List ℕ)
answers n v = (if n == 2 then 0 else if n == 5 then 0 else 1, v)

fs_init-first_example : fs_init memory answers 0 none ≡ (fr_ok, 2, none)
unfolding attempts attempt
fs_init-first_example = fs_init-first memory answers 0 none

join_run : join_path 280 (codes "/docs") (codes "a.txt") ≡ codes "/docs/a.txt"
unfolding join_path append_part append_slash
join_run = refl

no_zero : (c : ℕ) (s : List ℕ) → c ≢ 0 → NoZero s → NoZero (c ∷ s)
no_zero c s h k = (h, k)

join_path_lem_example :
    join_path 9 (codes "/docs") (codes "a.txt")
    ≡ take 8 (codes "/docs" ++ (separator (codes "/docs") ++ codes "a.txt"))
join_path_lem_example =
    join_path_lem 9 (codes "/docs") (codes "a.txt") (ground arith) (ground arith)

-- A disk with one directory "/d", which holds the entries "." and "a"; removing is counted.
abbrev entry : ℕ → List ℕ
entry n = if n == 0 then codes "." else if n == 1 then codes "a" else []

abbrev one_directory : FatFs
one_directory = record memory {
  f_stat = λ p v. (fr_ok, record { fname = p; is_dir = get_or p 2 0 == 0 }, v);
  f_unlink = λ p v. (fr_ok, some p);
  f_opendir = λ p v. (fr_ok, 0, v);
  f_readdir = λ d v. (fr_ok, record { fname = entry d; is_dir = false }, d + 1, v);
}

abbrev console : Console
console = record { words = λ i. 0; theme = default_theme; cursor_y = 24 }

cat_file-shows_example :
    (k : ℕ) × (v' : Option (List ℕ)) × (cat_file memory 7 (codes "a") console (some (codes "a\nb"))
      ≡ some (fr_ok, show_rows (wrap_text [] (take k (codes "a\nb"))) console, v'))
    × (ReadsAll memory → take k (codes "a\nb") ≡ codes "a\nb")
cat_file-shows_example =
    cat_file-shows memory memory_laws 7 (codes "a") (codes "a\nb") console (some (codes "a\nb"))
      refl refl (omega arith) ((λ e. omega arith), ((λ e. omega arith), ((λ e. omega arith), tt)))
