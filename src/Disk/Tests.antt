-- ===== src/Disk/Tests.antt =====
-- A machine that answers always, a drive that is still busy, and the theorems on src/fs/fatfs/source/diskio.c for it.
use my_dos.Base.{
  ℕ, zero, suc, ◌<◌, none, replicate, ◌+◌, ◌≡◌, refl, arith, inl, [], ◌∷◌, false, ◌==◌,
  if◌then◌else◌,
}
use my_dos.Disk.Ports.{Ports, Ahci}
use my_dos.Disk.Device.{Device, Disks, at_boot, res_ok, res_error}
use my_dos.Disk.Ata.{ata_identify}
use my_dos.Disk.Calls.{disk_read, disk_write}
use my_dos.Disk.Identify.{IsValid, ata_identify-IsValid}
use my_dos.Disk.Reading.{sectors_bytes, any_bad, readable, disk_read-reads}
use my_dos.Disk.RoundTrip.{AllBytes, disk_read-disk_write}
use my_dos.Disk.Drive.{Idle}
use my_dos.Disk.Simulated.{over, Machine, machine, modern_drive, modern_drive-IsValid}
use my_dos.Disk.Kept.{modern}

-- The world counts the accesses. The status is DRDY with DRQ, every other register is 0, and
-- every word is 0x200.
abbrev steady : Ports
steady = record {
  World = ℕ;
  inb = λ port w. (if port == 0x1F7 then 0x48 else 0, w + 1);
  inw = λ port w. (0x200, w + 1);
  outb = λ port v w. w + 1;
  outw = λ port v w. w + 1;
}

abbrev no_ahci : Ahci steady
no_ahci = record {
  ahci_init = λ w. w;
  ahci_disk_count = λ w. 0;
  ahci_sector_count = λ disk w. 0;
  ahci_read = λ disk sector w. (false, [], w);
  ahci_write = λ disk sector bytes w. (false, w);
  ahci_flush = λ disk w. (false, w);
}

abbrev old_drive : Device
old_drive = record {
  io_base = 0x1F0;
  control_base = 0x3F6;
  slave = 0;
  lba_supported = false;
  flush_supported = false;
  cylinders = 306;
  heads = 4;
  sectors_per_track = 17;
  status = 0;
  sector_count = 20808;
}

old_drive-IsValid : IsValid old_drive
old_drive-IsValid = record {
  known = inl refl;
  some_sectors = λ _. omega arith;
  lba_reach = λ _ h. cc h;
  chs_reach = λ _ _. (omega arith, omega arith, omega arith, omega arith);
}

ata_identify-IsValid_example :
    IsValid (ata_identify steady old_drive 0).1
    × ((ata_identify steady old_drive 0).0 ≡ ((ata_identify steady old_drive 0).1.status == 0))
ata_identify-IsValid_example = ata_identify-IsValid steady old_drive 0

abbrev disks : Disks
disks = record at_boot { ata_devices = modern_drive ∷ [] }

-- Sector n holds the word n.
abbrev switched_on : Machine
switched_on = record {
  registers = λ k. 0;
  contents = λ n i. n;
  buffer = [];
  target = none;
  delay = over;
  failed = false;
}

switched_on-Idle : Idle machine modern_drive modern switched_on
switched_on-Idle = record { empty = refl; none_awaited = refl; ready = refl }

abbrev no_controller : Ahci machine
no_controller = record {
  ahci_init = λ w. w;
  ahci_disk_count = λ w. 0;
  ahci_sector_count = λ disk w. 0;
  ahci_read = λ disk sector w. (false, [], w);
  ahci_write = λ disk sector bytes w. (false, w);
  ahci_flush = λ disk w. (false, w);
}

-- The last of the two sectors is bad.
disk_read-reads_example :
    (let out = disk_read machine no_controller 0 998 2 disks switched_on in
      (out.0 ≡ (if any_bad modern.bad 998 2 then res_error else res_ok))
      × (out.1 ≡ sectors_bytes (λ n. modern.stored n switched_on) 998 (readable modern.bad 998 2))
      × ((k : ℕ) → modern.stored k out.2 ≡ modern.stored k switched_on))
disk_read-reads_example =
    disk_read-reads machine no_controller 0 998 2 disks modern switched_on (omega arith)
      (omega arith) modern_drive-IsValid refl refl (omega arith) (omega arith) switched_on-Idle

replicate-AllBytes : (n b : ℕ) → b < 256 → AllBytes (replicate n b)
replicate-AllBytes zero b h = tt
replicate-AllBytes (suc n) b h = (h, replicate-AllBytes n b h)

disk_read-disk_write_example :
    (let wrote = disk_write machine no_controller 0 (replicate 1024 7) 300 2 disks switched_on in
      let out = disk_read machine no_controller 0 300 2 disks wrote.1 in
      (wrote.0 ≡ res_ok) × (out.0 ≡ res_ok) × (out.1 ≡ replicate 1024 7))
disk_read-disk_write_example =
    disk_read-disk_write machine no_controller 0 300 2 (replicate 1024 7) disks modern switched_on
      (omega arith) (omega arith) modern_drive-IsValid refl refl (omega arith) (omega arith)
      switched_on-Idle refl (replicate-AllBytes 1024 7 (omega arith)) refl
