-- ===== src/Disk/RoundTrip.antt =====
-- Reading back what was written, `disk_write` and `disk_read` of src/fs/fatfs/source/diskio.c.
use my_dos.Base.{
  ℕ, zero, suc, ◌+◌, ◌*◌, ◌/◌, ◌%◌, ◌≤◌, ◌<◌, ◌≡◌, refl, ap, ap₂, ◌∙◌, arith, true, false, bit_or,
  bit_or-bytes, List, [], ◌∷◌, ◌++◌, length, take, drop, fun_ext, ◌==◌, if◌then◌else◌,
  take-append-drop, length-drop, ne→==, eq→==,
}
use my_dos.Disk.Ports.{Ports, Ahci}
use my_dos.Disk.Device.{Disks, res_ok, res_error}
use my_dos.Disk.Calls.{disk_read, disk_write, device_at}
use my_dos.Disk.Identify.{IsValid}
use my_dos.Disk.Drive.{Drive, Idle}
use my_dos.Disk.Reading.{bytes_of, sectors_bytes, any_bad, readable-any_bad, disk_read-reads}
use my_dos.Disk.Writing.{words_of, written, disk_write-writes}

-- Bytes only.
abbrev pub AllBytes : List ℕ → Type 0
AllBytes [] = Unit
AllBytes (b ∷ bytes) = (b < 256) × AllBytes bytes

AllBytes-drop : (n : ℕ) (bytes : List ℕ) → AllBytes bytes → AllBytes (drop n bytes)
AllBytes-drop zero bytes h = h
AllBytes-drop (suc n) [] h = h
AllBytes-drop (suc n) (b ∷ bytes) (_, h) = AllBytes-drop n bytes h

bytes_of-words_of :
    (n : ℕ) (buffer : List ℕ)
    → AllBytes buffer
    → n * 2 ≤ length buffer
    → bytes_of (words_of n buffer) ≡ take (n * 2) buffer
bytes_of-words_of zero buffer h room = refl
bytes_of-words_of (suc n) [] h room = absurd (omega arith)
bytes_of-words_of (suc n) (a ∷ []) h room = absurd (omega arith)
bytes_of-words_of (suc n) (a ∷ b ∷ buffer) (ha, (hb, h)) room =
    let word = bit_or-bytes a b ha hb in
    let low : bit_or a (b * 256) % 256 ≡ a = rw word (omega arith) in
    let high : bit_or a (b * 256) / 256 % 256 ≡ b = rw word (omega arith) in
    ap₂ ◌∷◌ low (ap₂ ◌∷◌ high (bytes_of-words_of n buffer h (omega arith)))
    ∙ ap (λ k. take k (a ∷ b ∷ buffer)) {x = suc (suc (n * 2))} {y = suc n * 2} (omega arith)

-- The sectors before are left.
written-before :
    (count sector : ℕ) (buffer : List ℕ) (stored : ℕ → List ℕ) (k : ℕ)
    → k < sector
    → written buffer sector count stored k ≡ stored k
written-before zero sector buffer stored k h = refl
written-before (suc count) sector buffer stored k h =
    written-before count (suc sector) (drop 512 buffer)
      (λ j. if j == sector then words_of 256 buffer else stored j) k (omega arith)
    ∙ rw (ne→== k sector (λ e. omega arith)) refl

sectors_bytes-written :
    (count sector : ℕ) (buffer : List ℕ) (stored : ℕ → List ℕ)
    → AllBytes buffer
    → length buffer ≡ count * 512
    → sectors_bytes (written buffer sector count stored) sector count ≡ buffer
sectors_bytes-written zero sector [] stored h e = refl
sectors_bytes-written zero sector (b ∷ buffer) stored h e = absurd (omega arith)
sectors_bytes-written (suc count) sector buffer stored h e =
    let after : ℕ → List ℕ = λ j. if j == sector then words_of 256 buffer else stored j in
    let first : written buffer sector (suc count) stored sector ≡ words_of 256 buffer =
      written-before count (suc sector) (drop 512 buffer) after sector (omega arith)
      ∙ rw (eq→== sector sector refl) refl in
    let rest =
      sectors_bytes-written count (suc sector) (drop 512 buffer) after (AllBytes-drop 512 buffer h)
        (omega (arith, length-drop 512 buffer)) in
    ap₂ ◌++◌ (ap bytes_of first ∙ bytes_of-words_of 256 buffer h (omega arith)) rest
    ∙ take-append-drop 512 buffer

-- On an ATA drive in use, addressed by sector numbers and keeping the promises of its
-- specification, which is idle and on which none of the sectors is bad, reading the sectors just
-- written gives back the bytes that were written, and both calls succeed, however long, within the
-- time limit of the driver, the drive is busy after a command or a sector.
pub disk_read-disk_write :
    (ports : Ports) (ahci : Ahci ports) (pdrv sector count : ℕ) (buffer : List ℕ) (disks : Disks)
    (drive : Drive ports (device_at pdrv disks)) (w : Ports.World ports)
    → pdrv < 4
    → 0 < count
    → IsValid (device_at pdrv disks)
    → (device_at pdrv disks).status ≡ 0
    → (device_at pdrv disks).lba_supported ≡ true
    → (device_at pdrv disks).slave < 2
    → sector + count ≤ (device_at pdrv disks).sector_count
    → Idle ports (device_at pdrv disks) drive w
    → any_bad drive.bad sector count ≡ false
    → AllBytes buffer
    → length buffer ≡ count * 512
    → (let wrote = disk_write ports ahci pdrv buffer sector count disks w in
        let out = disk_read ports ahci pdrv sector count disks wrote.1 in
        (wrote.0 ≡ res_ok) × (out.0 ≡ res_ok) × (out.1 ≡ buffer))
disk_read-disk_write ports ahci pdrv sector count buffer disks drive w h some_sectors valid on lba
      slave room idle good bytes size =
    let (ok, idle', stored) =
      disk_write-writes ports ahci pdrv sector count buffer disks drive w h some_sectors valid on
        lba slave room idle good in
    let w' = (disk_write ports ahci pdrv buffer sector count disks w).1 in
    let (ok', read, _) =
      disk_read-reads ports ahci pdrv sector count disks drive w' h some_sectors valid on lba slave
        room idle' in
    (
      ok,
      ok' ∙ ap (λ b. if b then res_error else res_ok) good,
      read
          ∙ ap (sectors_bytes (λ n. drive.stored n w') sector)
              (readable-any_bad drive.bad sector count good)
          ∙ ap (λ f. sectors_bytes f sector count) (fun_ext stored)
          ∙ sectors_bytes-written count sector buffer (λ n. drive.stored n w) bytes size,
    )
