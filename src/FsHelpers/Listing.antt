-- ===== src/FsHelpers/Listing.antt =====
-- `list_files` and `list_drives` of src/kernel/helper/fshelpers/fshelpers.c.
use my_dos.Base.{
  ℕ, zero, suc, ◌+◌, not, ◌||◌, ◌&&◌, List, [], ◌∷◌, Option, none, some, ◌==◌, bit_and,
  if◌then◌else◌, for_below,
}
use my_dos.Kernel.{white, green}
use my_dos.CString.{head_or_zero}
use my_dos.Console.{Console, write, write_text, scrl}
use my_dos.Disk.Device.{sta_noinit}
use my_dos.FatFs.{FatFs, FResult, is_ok}
use my_dos.FsHelpers.{volumes, drive_path}

module _ (fat : FatFs) where
  open fat use {Volume, Dir, f_opendir, f_readdir, f_closedir, f_getlabel}

  -- The loop over the entries; it runs on fuel, and `none` means that it ran out.
  unfoldable pub list_entries :
      ℕ → Dir → Console → Volume → Option (FResult × Console × Dir × Volume)
  list_entries zero dir c v = none
  list_entries (suc fuel) dir c v =
      let (res, info, dir', v') = f_readdir dir v in
      let shown = write info.fname (if info.is_dir then green else white) 0 c in
      let rest = list_entries fuel dir' (scrl shown) v' in
      if not (is_ok res) || head_or_zero info.fname == 0 then some (res, c, dir', v') else rest

  unfoldable pub list_files : ℕ → List ℕ → Console → Volume → Option (FResult × Console × Volume)
  list_files fuel path c v =
      let (opened, dir, v1) = f_opendir path v in
      let listed = list_entries fuel dir c v1 in
      if not (is_ok opened) then some (opened, c, v1) else elim listed [
        | none ↦ none
        | some (res, c', dir', v2) ↦ some (res, c', (f_closedir dir' v2).1)
      ]

  -- The calls on the drives, src/fs/fatfs/source/diskio.c, act on the machine that the volume stands
  -- for.
  module _ (disk_status : ℕ → Volume → ℕ) (disk_initialize : ℕ → Volume → ℕ × Volume) where
    -- A drive that is not initialised is initialised first.
    unfoldable pub drive_status : ℕ → Volume → ℕ × Volume
    drive_status i v =
        let status = disk_status i v in
        if not (bit_and status sta_noinit == 0) then disk_initialize i v else (status, v)

    -- The row of a drive.
    unfoldable pub show_drive : ℕ → FResult → List ℕ → Console → Console
    show_drive i res label c =
        let c1 = write_text "drive " white 0 c in
        let c2 = write ((b'0' + i) ∷ []) white 6 c1 in
        let c3 = write_text ": " white 7 c2 in
        let c4 =
          if is_ok res && not (head_or_zero label == 0)
          then write label white 11 c3
          else write_text "Unnamed Drive" white 11 c3 in
        scrl (write_text "available" green 71 c4)

    -- One round of the loop.
    unfoldable pub list_drive : ℕ → Console × Volume → Console × Volume
    list_drive i (c, v) =
        let (status, v1) = drive_status i v in
        let (res, label, v2) = f_getlabel (drive_path i) v1 in
        if not (status == 0) then (c, v1) else (show_drive i res label c, v2)

    unfoldable pub list_drives : Console → Volume → Console × Volume
    list_drives c v = for_below volumes list_drive (c, v)
