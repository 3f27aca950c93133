-- ===== src/FatFs/Laws.antt =====
-- What the documentation of FatFs (src/fs/fatfs/documents/doc) promises of the calls on files.
use my_dos.Base.{ℕ, ◌≡◌, refl, arith, true, ◌++◌, List, [], Option, some, length, take, drop}
use my_dos.FatFs.{FatFs, FResult, fr_ok, is_ok, read, create_always}

pub eq_of_is_ok : (r : FResult) → is_ok r ≡ true → r ≡ fr_ok
eq_of_is_ok fr_ok h = refl
eq_of_is_ok _ h = absurd (ground arith)

module _ (fat : FatFs) where
  open fat use {Volume, File, f_open, f_close, f_read, f_write}

  pub record FileLaws : Type 1 where
    -- The contents of the file at a path; `none` if there is none.
    pub stored : List ℕ → Volume → Option (List ℕ)
    -- Of an open file: its path, what has been written, and what is left to be read.
    pub path_of : File → List ℕ
    pub written : File → Volume → List ℕ
    pub unread : File → Volume → List ℕ
    -- open.html: FA_CREATE_ALWAYS makes a new file, or truncates an existing one.
    pub open_create :
        (p : List ℕ) (v : Volume)
        → (f_open p create_always v).0 ≡ fr_ok
        → (path_of (f_open p create_always v).1 ≡ p)
          × (written (f_open p create_always v).1 (f_open p create_always v).2 ≡ [])
    -- write.html: FR_OK with the full count means that all the data was written.
    pub write_ok :
        (bytes : List ℕ) (f : File) (v : Volume)
        → (f_write bytes f v).0 ≡ fr_ok
        → (f_write bytes f v).1 ≡ length bytes
        → (path_of (f_write bytes f v).2 ≡ path_of f)
          × (written (f_write bytes f v).2 (f_write bytes f v).3 ≡ written f v ++ bytes)
    -- close.html: a file closed with FR_OK is on the disk.
    pub close_ok :
        (f : File) (v : Volume)
        → (f_close f v).0 ≡ fr_ok
        → stored (path_of f) (f_close f v).1 ≡ some (written f v)
    -- open.html: FA_READ starts at the beginning of the file.
    pub open_read :
        (p bytes : List ℕ) (v : Volume)
        → stored p v ≡ some bytes
        → (f_open p read v).0 ≡ fr_ok
        → unread (f_open p read v).1 (f_open p read v).2 ≡ bytes
    -- read.html: as many bytes as are asked for, fewer only at the end of the file.
    pub read_ok :
        (n : ℕ) (f : File) (v : Volume)
        → (f_read n f v).0 ≡ fr_ok
        → ((f_read n f v).1 ≡ take n (unread f v))
          × (unread (f_read n f v).2 (f_read n f v).3 ≡ drop n (unread f v))
