-- ===== src/Disk/Drive.antt =====
-- What the ATA specification promises of a drive that is addressed by sector numbers, as the driver
-- of src/fs/fatfs/source/diskio.c uses it: the registers, the data port and the status port.
use my_dos.Base.{
  ℕ, ◌+◌, ◌*◌, ◌-◌, ◌^◌, ◌≤◌, ◌<◌, ◌≡◌, ◌≢◌, Bool, true, false, ◌||◌, bit_and, List, [], ◌∷◌,
  length, ◌==◌, suc, ◌++◌, Option, some, none, if◌then◌else◌,
}
use my_dos.Disk.Ports.{Ports}
use my_dos.Disk.Device.{Device}
use my_dos.Disk.Ata.{has_bits}

module _ (ports : Ports) (device : Device) where
  open ports use {World, inb, inw, outb, outw}

  pub record Drive : Type 0 where
    -- The registers by their offset, the words of each sector, the words that wait to be read, the
    -- sector that is being written with the words that were taken for it, the number of times that the
    -- status will still say busy, and whether the last command failed. A command for a sector that is
    -- bad fails.
    pub reg : ℕ → World → ℕ
    pub stored : ℕ → World → List ℕ
    pub queue : World → List ℕ
    pub taking : World → Option (ℕ × List ℕ)
    pub busy : World → ℕ
    pub fault : World → Bool
    pub bad : ℕ → Bool
    pub sector_words : (n : ℕ) (w : World) → length (stored n w) ≡ 256
    pub not_stuck : (w : World) → busy w < 1000000
    -- The alternate status has no effect; neither has the status, but for the time that passes.
    pub alternate :
        (w : World)
        → ((k : ℕ) → reg k (inb device.control_base w).1 ≡ reg k w)
          × ((n : ℕ) → stored n (inb device.control_base w).1 ≡ stored n w)
          × (queue (inb device.control_base w).1 ≡ queue w)
          × (taking (inb device.control_base w).1 ≡ taking w)
          × (fault (inb device.control_base w).1 ≡ fault w)
          × (busy (inb device.control_base w).1 ≤ busy w)
    pub status :
        (w : World)
        → ((k : ℕ) → reg k (inb (device.io_base + 7) w).1 ≡ reg k w)
          × ((n : ℕ) → stored n (inb (device.io_base + 7) w).1 ≡ stored n w)
          × (queue (inb (device.io_base + 7) w).1 ≡ queue w)
          × (taking (inb (device.io_base + 7) w).1 ≡ taking w)
          × (fault (inb (device.io_base + 7) w).1 ≡ fault w)
          × (busy (inb (device.io_base + 7) w).1 ≡ busy w - 1)
    -- A drive is there. While it is busy no other bit counts; then the error bits tell whether the
    -- command failed, and if not, the data request bit whether words wait or are waited for.
    pub present :
        (w : World)
        → ((inb (device.io_base + 7) w).0 == 0 || (inb (device.io_base + 7) w).0 == 0xFF) ≡ false
    pub is_busy : (w : World) → 0 < busy w → has_bits (inb (device.io_base + 7) w).0 0x80 ≡ true
    pub is_ready :
        (w : World)
        → busy w ≡ 0
        → (has_bits (inb (device.io_base + 7) w).0 0x80 ≡ false)
          × (has_bits (inb (device.io_base + 7) w).0 0x21 ≡ fault w)
          × (fault w ≡ false
              → queue w ≢ []
              → (bit_and (inb (device.io_base + 7) w).0 0x08 == 0x08) ≡ true)
          × (fault w ≡ false
              → taking w ≢ none
              → (bit_and (inb (device.io_base + 7) w).0 0x08 == 0x08) ≡ true)
    -- All that follows is promised only while the drive is not busy. Writing a register:
    pub write_register :
        (k v : ℕ) (w : World)
        → busy w ≡ 0
        → 2 ≤ k
        → k ≤ 6
        → (reg k (outb (device.io_base + k) v w) ≡ v)
          × ((j : ℕ) → j ≢ k → reg j (outb (device.io_base + k) v w) ≡ reg j w)
          × ((n : ℕ) → stored n (outb (device.io_base + k) v w) ≡ stored n w)
          × (queue (outb (device.io_base + k) v w) ≡ queue w)
          × (taking (outb (device.io_base + k) v w) ≡ taking w)
          × (busy (outb (device.io_base + k) v w) ≡ 0)
    -- READ SECTORS for one sector of this drive, in the addressing by numbers, of which the drive
    -- register holds the topmost four bits. The drive may be busy then.
    pub read_sectors :
        (top : ℕ) (w : World)
        → busy w ≡ 0
        → reg 2 w ≡ 1
        → top < 16
        → reg 6 w ≡ 0xE0 + device.slave * 16 + top
        → queue w ≡ []
        → taking w ≡ none
        → (let n = top * 2 ^ 24 + reg 5 w * 2 ^ 16 + reg 4 w * 2 ^ 8 + reg 3 w in
            let w' = outb (device.io_base + 7) 0x20 w in
            (fault w' ≡ bad n)
            × (bad n ≡ false → queue w' ≡ stored n w)
            × ((k : ℕ) → stored k w' ≡ stored k w)
            × (taking w' ≡ none))
    -- The data port gives the words one by one; the drive is not busy between two of them.
    pub read_word :
        (word : ℕ) (rest : List ℕ) (w : World)
        → busy w ≡ 0
        → queue w ≡ word ∷ rest
        → ((inw device.io_base w).0 ≡ word)
          × (queue (inw device.io_base w).1 ≡ rest)
          × ((n : ℕ) → stored n (inw device.io_base w).1 ≡ stored n w)
          × (taking (inw device.io_base w).1 ≡ taking w)
          × (fault (inw device.io_base w).1 ≡ fault w)
          × (rest ≢ [] → busy (inw device.io_base w).1 ≡ 0)
    -- WRITE SECTORS for one sector, with the same address. The drive may be busy then.
    pub write_sectors :
        (top : ℕ) (w : World)
        → busy w ≡ 0
        → reg 2 w ≡ 1
        → top < 16
        → reg 6 w ≡ 0xE0 + device.slave * 16 + top
        → queue w ≡ []
        → taking w ≡ none
        → (let n = top * 2 ^ 24 + reg 5 w * 2 ^ 16 + reg 4 w * 2 ^ 8 + reg 3 w in
            let w' = outb (device.io_base + 7) 0x30 w in
            (taking w' ≡ some (n, []))
            × ((k : ℕ) → stored k w' ≡ stored k w)
            × (queue w' ≡ [])
            × (fault w' ≡ false))
    -- The data port takes the words one by one; the drive is not busy between two of them. The last
    -- one completes the sector, which fails if it is bad, and the drive may be busy then.
    pub write_word :
        (word sector : ℕ) (words : List ℕ) (w : World)
        → busy w ≡ 0
        → taking w ≡ some (sector, words)
        → suc (length words) < 256
        → (taking (outw device.io_base word w) ≡ some (sector, words ++ word ∷ []))
          × ((n : ℕ) → stored n (outw device.io_base word w) ≡ stored n w)
          × (queue (outw device.io_base word w) ≡ queue w)
          × (busy (outw device.io_base word w) ≡ 0)
    pub write_last :
        (word sector : ℕ) (words : List ℕ) (w : World)
        → busy w ≡ 0
        → taking w ≡ some (sector, words)
        → suc (length words) ≡ 256
        → (taking (outw device.io_base word w) ≡ none)
          × (bad sector ≡ false
              → (n : ℕ)
              → stored n (outw device.io_base word w)
                ≡ (if n == sector then words ++ word ∷ [] else stored n w))
          × (queue (outw device.io_base word w) ≡ queue w)
          × (fault (outw device.io_base word w) ≡ bad sector)

  -- No words are left over from before and none are awaited, and the drive is not busy.
  pub record Idle (drive : Drive) (w : World) : Type 0 where
    pub empty : drive.queue w ≡ []
    pub none_awaited : drive.taking w ≡ none
    pub ready : drive.busy w ≡ 0
