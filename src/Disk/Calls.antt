-- ===== src/Disk/Calls.antt =====
-- The calls of FatFs on a drive: the end of src/fs/fatfs/source/diskio.c. The drives 0 to 3 are the
-- ATA drives, the drives 4 to 7 those of the AHCI controller.
use my_dos.Base.{
  ℕ, zero, suc, ◌+◌, ◌-◌, ◌%◌, ◌^◌, ◌||◌, ◌&&◌, Bool, true, false, not, List, [], ◌++◌, Option,
  none, some, ltb, leb, ◌==◌, if◌then◌else◌, get_or, set, drop, for_below,
}
use my_dos.Disk.Ports.{Ports, Ahci}
use my_dos.Disk.Device.{
  Device, unknown_device, Disks, DResult, res_ok, res_error, res_notrdy, res_parerr, sta_noinit,
}
use my_dos.Disk.Ata.{has_bits, ata_identify, ata_transfer, ata_select, ata_wait}

abbrev pub ctrl_sync : ℕ
ctrl_sync = 0

abbrev pub get_sector_count : ℕ
get_sector_count = 1

abbrev pub get_sector_size : ℕ
get_sector_size = 2

abbrev pub get_block_size : ℕ
get_block_size = 3

-- &ata_devices[pdrv], for a number below 4.
abbrev pub device_at : ℕ → Disks → Device
device_at pdrv disks = get_or disks.ata_devices pdrv (unknown_device 0 0 0)

module _ (ports : Ports) (ahci : Ahci ports) where
  open ports use {World, outb}
  open ahci use {ahci_init, ahci_disk_count, ahci_sector_count, ahci_read, ahci_write, ahci_flush}

  -- The probing of the controller, done once.
  unfoldable pub probe_ahci : Disks → World → Disks × World
  probe_ahci disks w =
      if disks.ahci_probed
      then (disks, w)
      else (let w' = ahci_init w in
          (
            record disks {
              ahci_probed = true;
              ahci_status =
                  for_below 4
                    (λ disk status.
                      set status disk (if ltb disk (ahci_disk_count w') then 0 else sta_noinit))
                    disks.ahci_status;
            },
            w',
          ))

  unfoldable pub disk_initialize : ℕ → Disks → World → ℕ × Disks × World
  unfolding ata_identify probe_ahci
  disk_initialize pdrv disks w =
      if ltb pdrv 4
      then (let (ok, device, w') = ata_identify ports (device_at pdrv disks) w in
          (device.status, record disks { ata_devices = set disks.ata_devices pdrv device }, w'))
      else if ltb pdrv 8
      then (let (disks', w') = probe_ahci disks w in
          (get_or disks'.ahci_status (pdrv - 4) sta_noinit, disks', w'))
      else (sta_noinit, disks, w)

  unfoldable pub disk_status : ℕ → Disks → ℕ
  disk_status pdrv disks =
      if ltb pdrv 4
      then (device_at pdrv disks).status
      else if ltb pdrv 8
      then get_or disks.ahci_status (pdrv - 4) sta_noinit
      else sta_noinit

  -- The loop of `secondary_transfer`.
  unfoldable pub ahci_sectors : ℕ → Bool → List ℕ → ℕ → ℕ → World → DResult × List ℕ × World
  ahci_sectors disk write buffer sector zero w = (res_ok, [], w)
  ahci_sectors disk true buffer sector (suc count) w =
      let (ok, w') = ahci_write disk sector buffer w in
      elim ok [
        | false ↦ (res_error, [], w')
        | true ↦ ahci_sectors disk true (drop 512 buffer) ((sector + 1) % 2 ^ 32) count w'
      ]
  ahci_sectors disk false buffer sector (suc count) w =
      let (ok, bytes, w') = ahci_read disk sector w in
      elim ok [
        | false ↦ (res_error, bytes, w')
        | true ↦
            (let (result, more, w'') =
                ahci_sectors disk false buffer ((sector + 1) % 2 ^ 32) count w' in
              (result, bytes ++ more, w''))
      ]

  unfoldable pub secondary_transfer :
      ℕ → Bool → List ℕ → ℕ → ℕ → Disks → World → DResult × List ℕ × World
  unfolding ahci_sectors
  secondary_transfer pdrv write buffer sector count disks w =
      if leb 4 pdrv && ltb pdrv 8
      then (let disk = pdrv - 4 in
          let sectors = ahci_sector_count disk w in
          if not (get_or disks.ahci_status disk sta_noinit == 0)
          then (res_notrdy, [], w)
          else if leb sectors sector || ltb (sectors - sector) count
          then (res_parerr, [], w)
          else ahci_sectors disk write buffer sector count w)
      else (res_parerr, [], w)

  -- The buffer is never a null pointer where FatFs calls the two.
  unfoldable pub disk_read : ℕ → ℕ → ℕ → Disks → World → DResult × List ℕ × World
  unfolding ata_transfer secondary_transfer
  disk_read pdrv sector count disks w =
      if leb 8 pdrv || count == 0
      then (res_parerr, [], w)
      else if ltb pdrv 4
      then ata_transfer ports (device_at pdrv disks) false [] sector count w
      else secondary_transfer pdrv false [] sector count disks w

  unfoldable pub disk_write : ℕ → List ℕ → ℕ → ℕ → Disks → World → DResult × World
  unfolding ata_transfer secondary_transfer
  disk_write pdrv buffer sector count disks w =
      if leb 8 pdrv || count == 0
      then (res_parerr, w)
      else (let (result, read, w') =
            if ltb pdrv 4
            then ata_transfer ports (device_at pdrv disks) true buffer sector count w
            else secondary_transfer pdrv true buffer sector count disks w in
          (result, w'))

  -- The three questions of both kinds of drives; the answer is stored through the pointer, unless it
  -- is a null pointer.
  unfoldable pub answer : Bool → ℕ → DResult × Option ℕ
  answer has_buffer value = if has_buffer then (res_ok, some value) else (res_parerr, none)

  unfoldable pub answer_query : ℕ → Bool → ℕ → DResult × Option ℕ
  unfolding answer
  answer_query cmd has_buffer sectors =
      if cmd == get_sector_size
      then answer has_buffer 512
      else if cmd == get_sector_count
      then answer has_buffer sectors
      else if cmd == get_block_size
      then answer has_buffer 1
      else (res_parerr, none)

  unfoldable pub sync_ata : Device → World → DResult × World
  unfolding ata_select ata_wait
  sync_ata device w =
      if device.flush_supported
      then (let w = ata_select ports device 0 w in
          let w = outb (device.io_base + 7) 0xE7 w in
          let (calm, w) = ata_wait ports device 0x80 0 w in (if calm then res_ok else res_error, w))
      else (res_ok, w)

  unfoldable pub disk_ioctl : ℕ → ℕ → Bool → Disks → World → DResult × Option ℕ × World
  unfolding disk_status answer_query sync_ata
  disk_ioctl pdrv cmd has_buffer disks w =
      if leb 8 pdrv
      then (res_parerr, none, w)
      else if has_bits (disk_status pdrv disks) sta_noinit
      then (res_notrdy, none, w)
      else if leb 4 pdrv
      then if cmd == ctrl_sync
        then (let (ok, w') = ahci_flush (pdrv - 4) w in
            (if ok then res_ok else res_error, none, w'))
        else (let (result, stored) = answer_query cmd has_buffer (ahci_sector_count (pdrv - 4) w) in
            (result, stored, w))
      else if cmd == ctrl_sync
      then (let (result, w') = sync_ata (device_at pdrv disks) w in (result, none, w'))
      else (let (result, stored) =
            answer_query cmd has_buffer (device_at pdrv disks).sector_count in
          (result, stored, w))
