-- ===== src/Disk/Device.antt =====
-- The data of src/fs/fatfs/source/diskio.c.
use my_dos.Base.{ℕ, Bool, false, List, [], ◌∷◌}

-- `DRESULT`
pub data DResult : Type 0 where
  res_ok res_error res_wrprt res_notrdy res_parerr : DResult

-- The bit STA_NOINIT of a `DSTATUS`; no other bit is ever set.
abbrev pub sta_noinit : ℕ
sta_noinit = 1

-- `ata_device_t`
pub record Device : Type 0 where
  pub io_base : ℕ
  pub control_base : ℕ
  pub slave : ℕ
  pub lba_supported : Bool
  pub flush_supported : Bool
  pub cylinders : ℕ
  pub heads : ℕ
  pub sectors_per_track : ℕ
  pub status : ℕ
  pub sector_count : ℕ

abbrev pub unknown_device : ℕ → ℕ → ℕ → Device
unknown_device io control slave = record {
  io_base = io;
  control_base = control;
  slave = slave;
  lba_supported = false;
  flush_supported = false;
  cylinders = 0;
  heads = 0;
  sectors_per_track = 0;
  status = sta_noinit;
  sector_count = 0;
}

-- The static variables.
pub record Disks : Type 0 where
  pub ata_devices : List Device
  pub ahci_status : List ℕ
  pub ahci_probed : Bool

abbrev pub at_boot : Disks
at_boot = record {
  ata_devices =
      unknown_device 0x1F0 0x3F6 0
      ∷ unknown_device 0x1F0 0x3F6 1
      ∷ unknown_device 0x170 0x376 0
      ∷ unknown_device 0x170 0x376 1
      ∷ [];
  ahci_status = sta_noinit ∷ sta_noinit ∷ sta_noinit ∷ sta_noinit ∷ [];
  ahci_probed = false;
}
