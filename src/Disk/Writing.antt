-- ===== src/Disk/Writing.antt =====
-- Writing sectors, `disk_write` of src/fs/fatfs/source/diskio.c, to a drive that keeps its promises.
use my_dos.Base.{
  ℕ, zero, suc, ◌+◌, ◌*◌, ◌-◌, ◌/◌, ◌%◌, ◌^◌, ◌≤◌, ◌<◌, ◌≡◌, ◌≢◌, refl, ap, ap₂, ◌∙◌, arith, true,
  false, ◌||◌, not, bit_or, List, [], ◌∷◌, ◌++◌, length, drop, get_or, fun_ext, ◌==◌, ltb, leb,
  some, none, if◌then◌else◌, append_assoc, length-append,
}
use my_dos.Disk.Ports.{Ports, Ahci}
use my_dos.Disk.Device.{Device, Disks, res_ok}
use my_dos.Disk.Ata.{
  has_bits, ata_wait, move_words, transfer_sectors, ata_transfer, ata_lba28_sectors,
}
use my_dos.Disk.Calls.{disk_write, device_at}
use my_dos.Disk.Identify.{IsValid}
use my_dos.Disk.Drive.{Drive, Idle}
use my_dos.Disk.Reading.{any_bad, any_bad-suc}
use my_dos.Disk.Addressing.{put_address-Addressed}
use my_dos.Disk.Waiting.{ata_wait-calm, ata_wait-taking}

-- The words of the first bytes of a buffer.
abbrev pub words_of : ℕ → List ℕ → List ℕ
words_of zero buffer = []
words_of (suc n) buffer =
    bit_or (get_or buffer 0 0) (get_or buffer 1 0 * 256) ∷ words_of n (drop 2 buffer)

-- The sectors once the words of a buffer are written from a sector on.
abbrev pub written : List ℕ → ℕ → ℕ → (ℕ → List ℕ) → ℕ → List ℕ
written buffer sector zero stored = stored
written buffer sector (suc count) stored =
    written (drop 512 buffer) (suc sector) count
      (λ k. if k == sector then words_of 256 buffer else stored k)

module _ (ports : Ports) (device : Device) (drive : Drive ports device) where
  open ports use {World, inb, inw, outb, outw}
  open drive use {
    reg, stored, queue, taking, busy, fault, bad, write_sectors, write_word, write_last,
  }

  -- The drive takes the words of a sector.
  move_words-taking :
      (n sector : ℕ) (words buffer : List ℕ) (w : World)
      → taking w ≡ some (sector, words)
      → length words + suc n ≡ 256
      → busy w ≡ 0
      → bad sector ≡ false
      → (let out = move_words ports device true (suc n) buffer w in
          (taking out.1 ≡ none)
          × (queue out.1 ≡ queue w)
          × (out.0 ≡ [])
          × (fault out.1 ≡ false)
          × ((k : ℕ)
              → stored k out.1
                ≡ (if k == sector then words ++ words_of (suc n) buffer else stored k w)))
  unfolding move_words
  move_words-taking zero sector words buffer w e h still good =
      let word = bit_or (get_or buffer 0 0) (get_or buffer 1 0 * 256) in
      let (idle, kept, q, f) = write_last word sector words w still e (omega arith) in
      (idle, q, refl, f ∙ good, kept good)
  move_words-taking (suc n) sector words buffer w e h still good =
      let word = bit_or (get_or buffer 0 0) (get_or buffer 1 0 * 256) in
      let (more, kept, q, still') = write_word word sector words w still e (omega arith) in
      let (idle, q', none_read, f', kept') =
        move_words-taking n sector (words ++ word ∷ []) (drop 2 buffer) (outw device.io_base word w)
          more (omega (arith, h, length-append words (word ∷ []))) still' good in
      (
        idle,
        q' ∙ q,
        none_read,
        f',
        λ k.
            kept' k
            ∙ ap₂ (λ a b. if k == sector then a else b)
                (append_assoc words (word ∷ []) (words_of (suc n) (drop 2 buffer))) (kept k),
      )

  transfer_sectors-writes :
      (count sector : ℕ) (buffer : List ℕ) (w : World)
      → device.lba_supported ≡ true
      → device.slave < 2
      → sector + count ≤ ata_lba28_sectors
      → Idle ports device drive w
      → any_bad bad sector count ≡ false
      → (let out = transfer_sectors ports device true buffer sector count w in
          (out.0 ≡ res_ok)
          × Idle ports device drive out.2
          × ((k : ℕ) → stored k out.2 ≡ written buffer sector count (λ n. stored n w) k))
  unfolding transfer_sectors
  transfer_sectors-writes zero sector buffer w lba hs room idle good = (refl, idle, λ k. refl)
  transfer_sectors-writes (suc count) sector buffer w lba hs room idle good =
      let (here, later) = any_bad-suc bad sector count good in
      let top = sector / 2 ^ 24 % 16 in
      let (w1, addressed, a) =
        put_address-Addressed ports device drive sector w idle.ready lba hs in
      let w2 = outb (device.io_base + 7) 0x30 w1 in
      let (t2, s2, q2, f2) =
        write_sectors top w1 a.ready a.reg2 (omega arith) a.reg6 (a.waiting ∙ idle.empty)
          (a.taken ∙ idle.none_awaited) in
      let number : top * 2 ^ 24 + reg 5 w1 * 2 ^ 16 + reg 4 w1 * 2 ^ 8 + reg 3 w1 ≡ sector =
        omega (arith, a.reg5, a.reg4, a.reg3) in
      let begun : taking w2 ≡ some (sector, []) = t2 ∙ ap (λ n. some (n, [])) number in
      let some_sector : taking w2 ≢ none = λ e. cc (begun, e) in
      let (ready3, same3, still3) = ata_wait-taking ports device drive w2 some_sector in
      let w3 = (ata_wait ports device 0x08 0x08 w2).1 in
      let ready : (ata_wait ports device 0x08 0x08 w2).0 ≡ true = ready3 ∙ ap not f2 in
      let (t4, q4, read, f4, s4) =
        move_words-taking 255 sector [] buffer w3 (same3.taken ∙ begun) refl still3 here in
      let w4 = (move_words ports device true 256 buffer w3).1 in
      let (ready5, same5, still5) = ata_wait-calm ports device drive w4 in
      let w5 = (ata_wait ports device 0x80 0 w4).1 in
      let calm : (ata_wait ports device 0x80 0 w4).0 ≡ true = ready5 ∙ ap not f4 in
      let kept : (k : ℕ) → stored k w5 ≡ (if k == sector then words_of 256 buffer else stored k w) =
        λ k.
          same5.sectors k
          ∙ s4 k
          ∙ ap (λ l. if k == sector then words_of 256 buffer else l)
              (same3.sectors k ∙ s2 k ∙ a.sectors k) in
      let next : (sector + 1) % 2 ^ 32 ≡ suc sector = omega arith in
      let (ok, idle6, s6) =
        transfer_sectors-writes count (suc sector) (drop 512 buffer) w5 lba hs (omega arith)
          (record {
            empty = same5.waiting ∙ q4 ∙ same3.waiting ∙ q2;
            none_awaited = same5.taken ∙ t4;
            ready = still5;
          })
          later in
      rw (transfer_sectors, addressed, ready, calm, next)
        (
          ok,
          idle6,
          λ k. s6 k ∙ ap (λ f. written (drop 512 buffer) (suc sector) count f k) (fun_ext kept),
        )

-- Writing sectors that an ATA drive in use, addressed by sector numbers and keeping the promises of
-- its specification, has, succeeds if the drive is idle and none of the sectors is bad: it stores the
-- words of the buffer in those sectors and leaves the others, and the drive is idle again.
pub disk_write-writes :
    (ports : Ports) (ahci : Ahci ports) (pdrv sector count : ℕ) (buffer : List ℕ) (disks : Disks)
    (drive : Drive ports (device_at pdrv disks)) (w : Ports.World ports)
    → pdrv < 4
    → 0 < count
    → IsValid (device_at pdrv disks)
    → (device_at pdrv disks).status ≡ 0
    → (device_at pdrv disks).lba_supported ≡ true
    → (device_at pdrv disks).slave < 2
    → sector + count ≤ (device_at pdrv disks).sector_count
    → Idle ports (device_at pdrv disks) drive w
    → any_bad drive.bad sector count ≡ false
    → (let out = disk_write ports ahci pdrv buffer sector count disks w in
        (out.0 ≡ res_ok)
        × Idle ports (device_at pdrv disks) drive out.1
        × ((k : ℕ) → drive.stored k out.1 ≡ written buffer sector count (λ n. drive.stored n w) k))
unfolding disk_write ata_transfer
disk_write-writes ports ahci pdrv sector count buffer disks drive w h some_sectors valid on lba
      slave room idle good =
    let device = device_at pdrv disks in
    let known : (leb 8 pdrv || count == 0) ≡ false = ground arith in
    let ata : ltb pdrv 4 ≡ true = ground arith in
    let ready : has_bits device.status 1 ≡ false = rw on refl in
    let inside : (leb device.sector_count sector || ltb (device.sector_count - sector) count)
        ≡ false =
      ground arith in
    let reach = valid.lba_reach on lba in
    let done =
      transfer_sectors-writes ports device drive count sector buffer w lba slave
        (omega (arith, reach)) idle good in
    rw (known, ata, ready, inside) done
