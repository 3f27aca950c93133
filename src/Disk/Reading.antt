-- ===== src/Disk/Reading.antt =====
-- Reading sectors, `disk_read` of src/fs/fatfs/source/diskio.c, from a drive that keeps its promises.
use my_dos.Base.{
  ℕ, zero, suc, ◌+◌, ◌*◌, ◌-◌, ◌/◌, ◌%◌, ◌^◌, ◌≤◌, ◌<◌, ◌≡◌, ◌≢◌, refl, ap, ap₂, sym, ◌∙◌, arith,
  Bool, true, false, ◌||◌, not, Bool-cases, inl, inr, if◌then◌else◌, List, [], ◌∷◌, ◌++◌, length,
  drop, fun_ext, ◌==◌, ltb, leb,
}
use my_dos.Disk.Ports.{Ports, Ahci}
use my_dos.Disk.Device.{Device, Disks, res_ok, res_error}
use my_dos.Disk.Ata.{
  has_bits, ata_wait, move_words, transfer_sectors, ata_transfer, ata_lba28_sectors,
}
use my_dos.Disk.Calls.{disk_read, device_at}
use my_dos.Disk.Identify.{IsValid}
use my_dos.Disk.Drive.{Drive, Idle}
use my_dos.Disk.Addressing.{put_address-Addressed}
use my_dos.Disk.Waiting.{ata_wait-calm, ata_wait-drq}

-- The bytes of words, the low one first.
abbrev pub bytes_of : List ℕ → List ℕ
bytes_of [] = []
bytes_of (word ∷ words) = word % 256 ∷ word / 256 % 256 ∷ bytes_of words

-- The bytes of consecutive sectors.
abbrev pub sectors_bytes : (ℕ → List ℕ) → ℕ → ℕ → List ℕ
sectors_bytes stored sector zero = []
sectors_bytes stored sector (suc count) =
    bytes_of (stored sector) ++ sectors_bytes stored (suc sector) count

-- Whether one of consecutive sectors is bad, and how many come before the first bad one.
abbrev pub any_bad : (ℕ → Bool) → ℕ → ℕ → Bool
any_bad bad sector zero = false
any_bad bad sector (suc count) = bad sector || any_bad bad (suc sector) count

abbrev pub readable : (ℕ → Bool) → ℕ → ℕ → ℕ
readable bad sector zero = 0
readable bad sector (suc count) =
    let rest = readable bad (suc sector) count in if bad sector then 0 else suc rest

pub any_bad-suc :
    (bad : ℕ → Bool) (sector count : ℕ)
    → any_bad bad sector (suc count) ≡ false
    → (bad sector ≡ false) × (any_bad bad (suc sector) count ≡ false)
any_bad-suc bad sector count h = elim (Bool-cases (bad sector)) [
  | inl b ↦ absurd (cc (sym (ap (λ x. x || any_bad bad (suc sector) count) b) ∙ h))
  | inr b ↦ (b, sym (ap (λ x. x || any_bad bad (suc sector) count) b) ∙ h)
]

pub readable-any_bad :
    (bad : ℕ → Bool) (sector count : ℕ)
    → any_bad bad sector count ≡ false
    → readable bad sector count ≡ count
readable-any_bad bad sector zero h = refl
readable-any_bad bad sector (suc count) h =
    let (good, rest) = any_bad-suc bad sector count h in
    rw good (ap suc (readable-any_bad bad (suc sector) count rest))

module _ (ports : Ports) (device : Device) (drive : Drive ports device) where
  open ports use {World, inb, inw, outb}
  open drive use {
    reg, stored, queue, taking, busy, fault, bad, read_sectors, read_word, sector_words,
  }

  -- The words that wait are read, as bytes.
  move_words-queue :
      (n : ℕ) (words buffer : List ℕ) (w : World)
      → queue w ≡ words
      → length words ≡ n
      → (words ≢ [] → busy w ≡ 0)
      → (let out = move_words ports device false n buffer w in
          (out.0 ≡ bytes_of words)
          × (queue out.1 ≡ [])
          × ((k : ℕ) → stored k out.1 ≡ stored k w)
          × (taking out.1 ≡ taking w)
          × (fault out.1 ≡ fault w))
  unfolding move_words
  move_words-queue zero [] buffer w e h still = (refl, e, (λ k. refl), refl, refl)
  move_words-queue zero (x ∷ words) buffer w e h still = absurd (omega arith)
  move_words-queue (suc n) [] buffer w e h still = absurd (omega arith)
  move_words-queue (suc n) (x ∷ words) buffer w e h still =
      let (value, rest, kept, t, f, still') =
        read_word x words w (still (λ e. omega (arith, ap length e))) e in
      let (bytes, empty, kept', t', f') =
        move_words-queue n words buffer (inw device.io_base w).1 rest (omega arith) still' in
      (
        ap₂ (λ v bs. v % 256 ∷ v / 256 % 256 ∷ bs) value bytes,
        empty,
        (λ k. kept' k ∙ kept k),
        t' ∙ t,
        f' ∙ f,
      )

  -- The sectors before the first bad one are read.
  pub transfer_sectors-reads :
      (count sector : ℕ) (buffer : List ℕ) (w : World)
      → device.lba_supported ≡ true
      → device.slave < 2
      → sector + count ≤ ata_lba28_sectors
      → Idle ports device drive w
      → (let out = transfer_sectors ports device false buffer sector count w in
          (out.0 ≡ (if any_bad bad sector count then res_error else res_ok))
          × (out.1 ≡ sectors_bytes (λ n. stored n w) sector (readable bad sector count))
          × ((k : ℕ) → stored k out.2 ≡ stored k w))
  unfolding transfer_sectors
  transfer_sectors-reads zero sector buffer w lba hs room idle = (refl, refl, λ k. refl)
  transfer_sectors-reads (suc count) sector buffer w lba hs room idle =
      let top = sector / 2 ^ 24 % 16 in
      let (w1, addressed, a) =
        put_address-Addressed ports device drive sector w idle.ready lba hs in
      let w2 = outb (device.io_base + 7) 0x20 w1 in
      let (f2, q2, s2, t2) =
        read_sectors top w1 a.ready a.reg2 (omega arith) a.reg6 (a.waiting ∙ idle.empty)
          (a.taken ∙ idle.none_awaited) in
      let number : top * 2 ^ 24 + reg 5 w1 * 2 ^ 16 + reg 4 w1 * 2 ^ 8 + reg 3 w1 ≡ sector =
        omega (arith, a.reg5, a.reg4, a.reg3) in
      let failed : fault w2 ≡ bad sector = f2 ∙ ap bad number in
      let words : bad sector ≡ false → queue w2 ≡ stored sector w =
        λ good. q2 (ap bad number ∙ good) ∙ ap (λ n. stored n w1) number ∙ a.sectors sector in
      let some_words : fault w2 ≡ false → queue w2 ≢ [] =
        λ f e. omega (arith, sector_words sector w, ap length (sym (words (sym failed ∙ f)) ∙ e)) in
      let (ready, same3, still3) = ata_wait-drq ports device drive w2 some_words in
      let w3 = (ata_wait ports device 0x08 0x08 w2).1 in
      elim (Bool-cases (bad sector)) [
        | inl broken ↦
            let stopped : (ata_wait ports device 0x08 0x08 w2).0 ≡ false =
              ready ∙ ap not (failed ∙ broken) in
            rw (transfer_sectors, addressed, stopped, broken)
              (refl, refl, λ k. same3.sectors k ∙ s2 k ∙ a.sectors k)
        | inr good ↦
            let begun : (ata_wait ports device 0x08 0x08 w2).0 ≡ true =
              ready ∙ ap not (failed ∙ good) in
            let (bytes, q4, s4, t4, f4) =
              move_words-queue 256 (stored sector w) buffer w3 (same3.waiting ∙ words good)
                (sector_words sector w) (λ _. still3) in
            let w4 = (move_words ports device false 256 buffer w3).1 in
            let (ready5, same5, still5) = ata_wait-calm ports device drive w4 in
            let w5 = (ata_wait ports device 0x80 0 w4).1 in
            let calm : (ata_wait ports device 0x80 0 w4).0 ≡ true =
              ready5 ∙ ap not (f4 ∙ same3.failed ∙ failed ∙ good) in
            let kept : (k : ℕ) → stored k w5 ≡ stored k w =
              λ k. same5.sectors k ∙ s4 k ∙ same3.sectors k ∙ s2 k ∙ a.sectors k in
            let next : (sector + 1) % 2 ^ 32 ≡ suc sector = omega arith in
            let (ok, more, kept6) =
              transfer_sectors-reads count (suc sector) (drop 512 buffer) w5 lba hs (omega arith)
                (record {
                  empty = same5.waiting ∙ q4;
                  none_awaited = same5.taken ∙ t4 ∙ same3.taken ∙ t2;
                  ready = still5;
                }) in
            rw (transfer_sectors, addressed, begun, calm, next, good)
              (
                ok,
                ap₂ ◌++◌ bytes (
                    more
                    ∙ ap (λ f. sectors_bytes f (suc sector) (readable bad (suc sector) count))
                        (fun_ext kept)),
                λ k. kept6 k ∙ kept k,
              )
      ]

-- Reading sectors that an ATA drive in use, addressed by sector numbers and keeping the promises of
-- its specification, has, while it is idle, returns the bytes of the sectors before the first bad
-- one in order, succeeds exactly if there is no bad one and reports an error otherwise, and leaves
-- the stored sectors as they are, however long, within the time limit of the driver, the drive is
-- busy after a command or a sector.
pub disk_read-reads :
    (ports : Ports) (ahci : Ahci ports) (pdrv sector count : ℕ) (disks : Disks)
    (drive : Drive ports (device_at pdrv disks)) (w : Ports.World ports)
    → pdrv < 4
    → 0 < count
    → IsValid (device_at pdrv disks)
    → (device_at pdrv disks).status ≡ 0
    → (device_at pdrv disks).lba_supported ≡ true
    → (device_at pdrv disks).slave < 2
    → sector + count ≤ (device_at pdrv disks).sector_count
    → Idle ports (device_at pdrv disks) drive w
    → (let out = disk_read ports ahci pdrv sector count disks w in
        (out.0 ≡ (if any_bad drive.bad sector count then res_error else res_ok))
        × (out.1 ≡ sectors_bytes (λ n. drive.stored n w) sector (readable drive.bad sector count))
        × ((k : ℕ) → drive.stored k out.2 ≡ drive.stored k w))
unfolding disk_read ata_transfer
disk_read-reads ports ahci pdrv sector count disks drive w h some_sectors valid on lba slave room
      idle =
    let device = device_at pdrv disks in
    let known : (leb 8 pdrv || count == 0) ≡ false = ground arith in
    let ata : ltb pdrv 4 ≡ true = ground arith in
    let ready : has_bits device.status 1 ≡ false = rw on refl in
    let inside : (leb device.sector_count sector || ltb (device.sector_count - sector) count)
        ≡ false =
      ground arith in
    let reach = valid.lba_reach on lba in
    let done =
      transfer_sectors-reads ports device drive count sector [] w lba slave (omega (arith, reach))
        idle in
    rw (known, ata, ready, inside) done
