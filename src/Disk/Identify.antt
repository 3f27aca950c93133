-- ===== src/Disk/Identify.antt =====
-- What `ata_identify` of src/fs/fatfs/source/diskio.c finds out about a drive.
use my_dos.Base.{
  ℕ, ◌*◌, ◌%◌, ◌^◌, ◌≤◌, ◌<◌, ◌≡◌, refl, ◌⊎◌, inl, inr, arith, ◌||◌, bit_or, Bool, true, false,
  List, ltb, ◌==◌, if◌then◌else◌, get_or, Option, none, some, Bool-cases,
}
use my_dos.Disk.Ports.{Ports}
use my_dos.Disk.Device.{Device, sta_noinit}
use my_dos.Disk.Ata.{
  ata_lba28_sectors, has_bits, ata_identify, request_identity, conclude, read_lba, read_chs,
  read_identity, finish, with_flush, reset,
}

-- A drive that is in use has sectors, all of which its way of addressing can reach; a drive that is
-- not in use says so.
pub record IsValid (device : Device) : Type 0 where
  pub known : (device.status ≡ 0) ⊎ (device.status ≡ sta_noinit)
  pub some_sectors : device.status ≡ 0 → 0 < device.sector_count
  pub lba_reach :
      device.status ≡ 0 → device.lba_supported ≡ true → device.sector_count ≤ ata_lba28_sectors
  pub chs_reach :
      device.status ≡ 0
      → device.lba_supported ≡ false
      → (0 < device.heads)
        × (device.heads ≤ 16)
        × (0 < device.sectors_per_track)
        × (device.sector_count ≤ device.cylinders * device.heads * device.sectors_per_track)

-- The result of an attempt to identify a drive.
abbrev pub Outcome : Bool → Device → Type 0
Outcome ok device = IsValid device × (ok ≡ (device.status == 0))

unused-Outcome : (device : Device) → device.status ≡ sta_noinit → Outcome false device
unused-Outcome device off = (
  record {
    known = inr off;
    some_sectors = λ h. ground arith;
    lba_reach = λ h. ground arith;
    chs_reach = λ h. ground arith;
  },
  rw off refl,
)

abbrev Chs : Device → Type 0
Chs device =
    (0 < device.heads)
    × (device.heads ≤ 16)
    × (0 < device.sectors_per_track)
    × (device.sector_count ≤ device.cylinders * device.heads * device.sectors_per_track)

finish-Outcome :
    (device : Device)
    → device.status ≡ sta_noinit
    → (device.lba_supported ≡ true → device.sector_count ≤ ata_lba28_sectors)
    → (device.lba_supported ≡ false → Chs device)
    → (let r = finish device in Outcome r.0 r.1)
unfolding finish
finish-Outcome device off lba chs = elim (Bool-cases (device.sector_count == 0)) [
  | inl z ↦ rw z (unused-Outcome device off)
  | inr z ↦ rw z (
    record {
      known = inl refl;
      some_sectors = λ _. ground arith;
      lba_reach = λ _. lba;
      chs_reach = λ _. chs;
    },
    refl,
  )
]

read_lba-Outcome :
    (identity : List ℕ) (device : Device)
    → device.status ≡ sta_noinit
    → (let r = read_lba identity device in Outcome r.0 r.1)
unfolding read_lba with_flush
read_lba-Outcome identity device off =
    let sectors = bit_or (get_or identity 61 0 * 65536) (get_or identity 60 0) in
    finish-Outcome
      (with_flush identity (record device {
        lba_supported = true;
        sector_count = if ltb ata_lba28_sectors sectors then ata_lba28_sectors else sectors;
      }))
      off (λ _. ground arith) (λ h. cc h)

chs-reach :
    (c h s : ℕ)
    → (c == 0 || h == 0 || ltb 16 h || s == 0) ≡ false
    → (0 < h) × (h ≤ 16) × (0 < s) × (c * h * s % 2 ^ 32 ≤ c * h * s)
chs-reach c h s z = (ground arith, ground arith, ground arith, omega arith)

read_chs-Outcome :
    (identity : List ℕ) (device : Device)
    → device.status ≡ sta_noinit
    → (let r = read_chs identity device in Outcome r.0 r.1)
unfolding read_chs with_flush
read_chs-Outcome identity device off =
    let c = get_or identity 1 0 in
    let h = get_or identity 3 0 in
    let s = get_or identity 6 0 in
    let geometry = record device {
      lba_supported = false;
      cylinders = c;
      heads = h;
      sectors_per_track = s;
    } in
    elim (Bool-cases (c == 0 || h == 0 || ltb 16 h || s == 0)) [
      | inl z ↦ rw z (unused-Outcome geometry off)
      | inr z ↦ rw z (
          finish-Outcome
            (with_flush identity (record geometry { sector_count = c * h * s % 2 ^ 32 })) off
            (λ e. cc e) (λ _. chs-reach c h s z))
    ]

conclude-Outcome :
    (device : Device) (identity : Option (List ℕ))
    → device.status ≡ sta_noinit
    → (let r = conclude device identity in Outcome r.0 r.1)
unfolding conclude read_identity
conclude-Outcome device none off = unused-Outcome device off
conclude-Outcome device (some identity) off =
    elim (Bool-cases (has_bits (get_or identity 49 0) 0x200)) [
      | inl z ↦ rw z (read_lba-Outcome identity device off)
      | inr z ↦ rw z (read_chs-Outcome identity device off)
    ]

-- Whatever the ports answer, identifying a drive leaves valid data, and the result tells whether
-- the drive is in use.
pub ata_identify-IsValid :
    (ports : Ports) (old : Device) (w : Ports.World ports)
    → IsValid (ata_identify ports old w).1
      × ((ata_identify ports old w).0 ≡ ((ata_identify ports old w).1.status == 0))
unfolding ata_identify reset
ata_identify-IsValid ports old w =
    conclude-Outcome (reset old) (request_identity ports (reset old) w).0 refl
