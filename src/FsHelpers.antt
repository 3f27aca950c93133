-- ===== src/FsHelpers.antt =====
-- src/kernel/helper/fshelpers/fshelpers.c: the choice of the volume, formatting, making a file and
-- the paths below a directory. A path is the list of its bytes without the terminating zero.
pub mod Volumes
pub mod Paths
pub mod Removing
pub mod Removal
pub mod RemovalFuel
pub mod Listing
pub mod Showing
pub mod Rows
pub mod Chunks
mod Tests
use my_dos.Base.{
  ℕ, ◌+◌, ◌-◌, ◌&&◌, Bool, true, false, not, List, [], ◌∷◌, ◌++◌, Option, none, some, ltb, leb,
  ◌==◌, if◌then◌else◌, length, get_or, for_below,
}
use my_dos.FatFs.{
  FatFs, FResult, fr_no_filesystem, fr_not_ready, is_ok, is_no_filesystem, OpenMode, create_new,
}

-- `FF_VOLUMES` of src/fs/fatfs/source/ffconf.h
abbrev pub volumes : ℕ
volumes = 8

-- { '0' + volume, ':', '\0' }
abbrev pub drive_path : ℕ → List ℕ
drive_path volume = (b'0' + volume) ∷ b':' ∷ []

-- The local variables of `fs_init`; `none` is -1.
pub record Found : Type 0 where
  pub first_error : FResult
  pub mounted_volume : Option ℕ
  pub first_ready_volume : Option ℕ

abbrev pub nothing_found : Found
nothing_found = record {
  first_error = fr_no_filesystem;
  mounted_volume = none;
  first_ready_volume = none;
}

-- if (variable < 0) variable = volume;
abbrev pub keep_first : ℕ → Option ℕ → Option ℕ
keep_first volume none = some volume
keep_first volume (some first) = some first

-- What mounting a volume that is ready says.
unfoldable pub note_mount : ℕ → FResult → Found → Found
note_mount volume result found =
    if is_ok result
    then record found { mounted_volume = keep_first volume found.mounted_volume }
    else if not (is_no_filesystem result) && is_no_filesystem found.first_error
    then record found { first_error = result }
    else found

-- The loop of `join_path` over one part: `room` is dest_size - 1.
unfoldable pub append_part : ℕ → List ℕ → List ℕ → List ℕ
append_part room [] dest = dest
append_part room (c ∷ part) dest =
    let rest = append_part room part (dest ++ c ∷ []) in
    if not (c == 0) && ltb (length dest) room then rest else dest

unfoldable pub append_slash : ℕ → List ℕ → List ℕ
append_slash room dest =
    if ltb 0 (length dest)
      && not (get_or dest (length dest - 1) 0 == b'/')
      && ltb (length dest) room
    then dest ++ b'/' ∷ []
    else dest

-- The bytes before the zero that is written last.
unfoldable pub join_path : ℕ → List ℕ → List ℕ → List ℕ
join_path dest_size dir file =
    let room = dest_size - 1 in append_part room file (append_slash room (append_part room dir []))

module _ (fat : FatFs) where
  open fat use {Volume, f_open, f_close, f_mount, f_chdrive, f_mkfs}

  -- `disk_initialize` of src/fs/fatfs/source/diskio.c acts on the machine that the volume stands for.
  module _ (disk_initialize : ℕ → Volume → ℕ × Volume) where
    -- One round of the loop.
    unfoldable pub try_volume : ℕ → Found × Volume → Found × Volume
    unfolding note_mount
    try_volume volume (found, v) =
        let (status, v1) = disk_initialize volume v in
        if not (status == 0)
        then (found, v1)
        else (let ready = record found {
          first_ready_volume = keep_first volume found.first_ready_volume;
        } in
            let (result, v2) = f_mount volume (drive_path volume) v1 in
            (note_mount volume result ready, v2))

    unfoldable pub try_volumes : ℕ → Volume → Found × Volume
    unfolding try_volume
    try_volumes n v = for_below n try_volume (nothing_found, v)

    -- What `fs_init` does after the loop: the result and the active volume.
    unfoldable pub choose_volume : Found → ℕ → Volume → FResult × ℕ × Volume
    choose_volume found active v = elim found.mounted_volume [
      | some volume ↦ (let (result, v') = f_chdrive (drive_path volume) v in (result, volume, v'))
      | none ↦ elim found.first_ready_volume [
        | none ↦ (fr_not_ready, active, v)
        | some volume ↦ (found.first_error, volume, v)
      ]
    ]

    unfoldable pub fs_init : ℕ → Volume → FResult × ℕ × Volume
    unfolding try_volumes choose_volume
    fs_init active v = let (found, v') = try_volumes volumes v in choose_volume found active v'

  unfoldable pub fs_format : ℕ → Volume → FResult × Volume
  fs_format active v =
      let (made, v1) = f_mkfs (drive_path active) v in
      if not (is_ok made)
      then (made, v1)
      else (let (mounted, v2) = f_mount active (drive_path active) v1 in
          if not (is_ok mounted) then (mounted, v2) else f_chdrive (drive_path active) v2)

  unfoldable pub make_file : List ℕ → Volume → FResult × Volume
  make_file path v =
      let (opened, file, v') = f_open path create_new v in
      if not (is_ok opened) then (opened, v') else f_close file v'
