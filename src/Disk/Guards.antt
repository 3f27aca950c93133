-- ===== src/Disk/Guards.antt =====
-- What the calls of src/fs/fatfs/source/diskio.c refuse before they touch a drive.
use my_dos.Base.{
  ℕ, ◌+◌, ◌*◌, ◌-◌, ◌/◌, ◌%◌, ◌≤◌, ◌<◌, ◌≡◌, ◌≢◌, ◌⊎◌, inl, inr, refl, arith, ◌||◌, true, false, [],
  none, ltb, leb, ◌==◌, if◌then◌else◌, Bool-cases,
}
use native.Mathlib.Nat.{mod-lt, div-lt_iff_lt-mul, mul_assoc, mul-pos}
use my_dos.Disk.Ports.{Ports, Ahci}
use my_dos.Disk.Device.{Device, Disks, res_notrdy, res_parerr, sta_noinit}
use my_dos.Disk.Ata.{has_bits, ata_transfer, put_address}
use my_dos.Disk.Calls.{device_at, disk_read}
use my_dos.Disk.Identify.{IsValid}

-- The cylinder and the head of a sector are within the geometry.
chs_address :
    (c h s n count : ℕ)
    → 0 < h
    → 0 < s
    → n < count
    → count ≤ c * h * s
    → (n / (h * s) < c) × (n % (h * s) / s < h)
chs_address c h s n count hh hs hn hc =
    let pos : 0 < h * s = mul-pos hh hs in
    let e : c * h * s ≡ c * (h * s) = mul_assoc c h s in
    ((div-lt_iff_lt-mul pos).1 (omega (arith, e)), (div-lt_iff_lt-mul hs).1 (mod-lt n pos))

-- A valid drive in use can address each of its sectors, so that the early return in the transfer
-- loop is never taken for one of them.
pub put_address-some :
    (ports : Ports) (device : Device) (sector : ℕ) (w : Ports.World ports)
    → IsValid device
    → device.status ≡ 0
    → sector < device.sector_count
    → put_address ports device sector w ≢ none
unfolding put_address
put_address-some ports device sector w valid on h = elim (Bool-cases device.lba_supported) [
  | inl lba ↦ rw lba (λ e. cc e)
  | inr chs ↦
      let (hh, small, hs, reach) = valid.chs_reach on chs in
      let (cylinder, head) =
        chs_address device.cylinders device.heads device.sectors_per_track sector
          device.sector_count hh hs h reach in
      let fits : (leb device.cylinders (sector / (device.heads * device.sectors_per_track))
            || leb device.heads
                (sector % (device.heads * device.sectors_per_track) / device.sectors_per_track))
          ≡ false =
        ground arith in
      rw (chs, fits) (λ e. cc e)
]

-- Reading at least one sector from an ATA drive that is not in use, or past the end of the drive,
-- reads nothing and touches no port; the result tells the two cases apart.
pub disk_read-refuses :
    (ports : Ports) (ahci : Ahci ports) (pdrv sector count : ℕ) (disks : Disks)
    (w : Ports.World ports)
    → pdrv < 4
    → 0 < count
    → (has_bits (device_at pdrv disks).status sta_noinit ≡ true)
      ⊎ ((device_at pdrv disks).sector_count < sector + count)
    → disk_read ports ahci pdrv sector count disks w ≡ (
      if has_bits (device_at pdrv disks).status sta_noinit then res_notrdy else res_parerr,
      [],
      w,
    )
unfolding disk_read ata_transfer
disk_read-refuses ports ahci pdrv sector count disks w h some_sectors bad =
    let device = device_at pdrv disks in
    let known : (leb 8 pdrv || count == 0) ≡ false = ground arith in
    let ata : ltb pdrv 4 ≡ true = ground arith in
    elim (Bool-cases (has_bits device.status sta_noinit)) [
      | inl off ↦ rw (known, ata, off) refl
      | inr on ↦
          let outside : (leb device.sector_count sector || ltb (device.sector_count - sector) count)
              ≡ true =
            ground arith in
          rw (known, ata, on, outside) refl
    ]
