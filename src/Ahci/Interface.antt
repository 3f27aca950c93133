-- ===== src/Ahci/Interface.antt =====
-- The AHCI driver of src/kernel/drivers/ahci.c behind the calls of src/fs/fatfs/source/diskio.c.
use my_dos.Base.{
  ℕ, ◌+◌, ◌-◌, ◌<◌, ◌≡◌, refl, arith, true, false, not, ◌||◌, [], ltb, leb, ◌==◌, if◌then◌else◌,
  get_or, Bool-cases, inl, inr,
}
use my_dos.Disk.Ports.{Ports, Ahci}
use my_dos.Disk.Device.{DResult, res_notrdy, res_parerr, sta_noinit}
use my_dos.Disk.Device
use my_dos.Disk.Calls.{disk_read, secondary_transfer}
use my_dos.Ahci.Machine.{Machine}
use my_dos.Ahci.Driver.{
  Disks, ahci_init, ahci_disk_count, ahci_sector_count, ahci_read, ahci_write, ahci_flush,
}

-- The instructions for bytes and words on the same machine.
module _ (m : Machine) (inb inw : ℕ → m.World → ℕ × m.World)
    (outb outw : ℕ → ℕ → m.World → m.World) where
  -- The ports, with the static variables of the driver beside the machine.
  abbrev pub with_disks : Ports
  with_disks = record {
    World = Disks × m.World;
    inb = λ port s. let (value, w) = inb port s.1 in (value, (s.0, w));
    inw = λ port s. let (value, w) = inw port s.1 in (value, (s.0, w));
    outb = λ port value s. (s.0, outb port value s.1);
    outw = λ port value s. (s.0, outw port value s.1);
  }

  -- What the driver fills of the interface.
  abbrev pub ahci_calls : Ahci with_disks
  ahci_calls = record {
    ahci_init = ahci_init m;
    ahci_disk_count = ahci_disk_count m;
    ahci_sector_count = ahci_sector_count m;
    ahci_read = ahci_read m;
    ahci_write = ahci_write m;
    ahci_flush = ahci_flush m;
  }

  -- Reading at least one sector through FatFs' call from an AHCI disk that was not found, or past
  -- the end of one, reads nothing and does not touch the machine; the result tells whether the
  -- drive is in use.
  pub disk_read-no_sector :
      (disk sector count : ℕ) (disks : Device.Disks) (d : Disks) (w : m.World)
      → disk < 4
      → 0 < count
      → ahci_sector_count m disk (d, w) < sector + count
      → disk_read with_disks ahci_calls (4 + disk) sector count disks (d, w) ≡ (
        if not (get_or disks.ahci_status disk sta_noinit == 0) then res_notrdy else res_parerr,
        [],
        (d, w),
      )
  unfolding disk_read secondary_transfer
  disk_read-no_sector disk sector count disks d w h some past =
      let drive : leb 8 (4 + disk) ≡ false = ground arith in
      let late : ltb (4 + disk) 4 ≡ false = ground arith in
      let high : leb 4 (4 + disk) ≡ true = ground arith in
      let low : ltb (4 + disk) 8 ≡ true = ground arith in
      let same : 4 + disk - 4 ≡ disk = omega arith in
      let none_read : (count == 0) ≡ false = ground arith in
      elim (Bool-cases (get_or disks.ahci_status disk sta_noinit == 0)) [
        | inr e ↦ rw (drive, none_read, late, high, low, same, e) refl
        | inl e ↦
            let sectors = ahci_sector_count m disk (d, w) in
            let out : (leb sectors sector || ltb (sectors - sector) count) ≡ true = ground arith in
            rw (drive, none_read, late, high, low, same, e, out) refl
      ]
