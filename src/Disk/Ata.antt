-- ===== src/Disk/Ata.antt =====
-- The ATA driver of src/fs/fatfs/source/diskio.c.
use my_dos.Base.{
  ℕ, zero, suc, ◌+◌, ◌*◌, ◌-◌, ◌/◌, ◌%◌, ◌^◌, ◌&&◌, ◌||◌, bit_and, bit_or, Bool, true, false, not,
  List, [], ◌∷◌, ◌++◌, Option, none, some, ltb, leb, ◌==◌, if◌then◌else◌, get_or, drop,
}
use my_dos.Disk.Ports.{Ports}
use my_dos.Disk.Device.{Device, DResult, res_ok, res_error, res_notrdy, res_parerr, sta_noinit}

-- Is one of the bits of the mask set?
abbrev pub has_bits : ℕ → ℕ → Bool
has_bits value mask = not (bit_and value mask == 0)

abbrev pub ata_lba28_sectors : ℕ
ata_lba28_sectors = 0x10000000

module _ (ports : Ports) where
  open ports use {World, inb, inw, outb, outw}

  unfoldable pub ata_read_status : Device → World → ℕ × World
  ata_read_status device = inb (device.io_base + 7)

  unfoldable pub ata_delay : Device → World → World
  ata_delay device w =
      let w = (inb device.control_base w).1 in
      let w = (inb device.control_base w).1 in
      let w = (inb device.control_base w).1 in (inb device.control_base w).1

  -- The loop of `ata_wait`, with the rounds that are left.
  unfoldable pub wait_rounds : Device → ℕ → ℕ → ℕ → World → Bool × World
  unfolding ata_read_status
  wait_rounds device mask value zero w = (false, w)
  wait_rounds device mask value (suc timeout) w =
      let (status, w') = ata_read_status device w in
      elim (status == 0 || status == 0xFF) [
        | true ↦ (false, w')
        | false ↦ elim (has_bits status 0x80) [
          | true ↦ wait_rounds device mask value timeout w'
          | false ↦ elim (has_bits status 0x21) [
            | true ↦ (false, w')
            | false ↦ elim (bit_and status mask == value) [
              | true ↦ (true, w')
              | false ↦ wait_rounds device mask value timeout w'
            ]
          ]
        ]
      ]

  unfoldable pub ata_wait : Device → ℕ → ℕ → World → Bool × World
  ata_wait device mask value = wait_rounds device mask value 1000000

  unfoldable pub ata_select : Device → ℕ → World → World
  ata_select device head w =
      ata_delay device
        (outb (device.io_base + 6) (bit_or (bit_or 0xA0 (device.slave * 16)) head % 256) w)

  -- `identify_data`
  unfoldable pub read_words : Device → ℕ → World → List ℕ × World
  read_words device zero w = ([], w)
  read_words device (suc n) w =
      let (word, w') = inw device.io_base w in
      let (words, w'') = read_words device n w' in (word ∷ words, w'')

  -- The four registers of an address.
  unfoldable pub put_registers : Device → ℕ → ℕ → ℕ → ℕ → World → World
  put_registers device seccount lba0 lba1 lba2 w =
      let w = outb (device.io_base + 2) seccount w in
      let w = outb (device.io_base + 3) lba0 w in
      let w = outb (device.io_base + 4) lba1 w in outb (device.io_base + 5) lba2 w

-- What `ata_identify` makes of the words that the drive sends; `device` is the device after the
-- reset at the start of that function.
unfoldable pub with_flush : List ℕ → Device → Device
with_flush identity device = record device {
  flush_supported =
      bit_and (get_or identity 83 0) 0xC000 == 0x4000 && has_bits (get_or identity 83 0) 0x1000;
}

unfoldable pub finish : Device → Bool × Device
finish device =
    if device.sector_count == 0 then (false, device) else (true, record device { status = 0 })

unfoldable pub read_lba : List ℕ → Device → Bool × Device
unfolding with_flush finish
read_lba identity device =
    let sectors = bit_or (get_or identity 61 0 * 65536) (get_or identity 60 0) in
    finish (
      with_flush identity (record device {
        lba_supported = true;
        sector_count = if ltb ata_lba28_sectors sectors then ata_lba28_sectors else sectors;
      }))

unfoldable pub read_chs : List ℕ → Device → Bool × Device
unfolding with_flush finish
read_chs identity device =
    let geometry = record device {
      lba_supported = false;
      cylinders = get_or identity 1 0;
      heads = get_or identity 3 0;
      sectors_per_track = get_or identity 6 0;
    } in
    if geometry.cylinders == 0
      || geometry.heads == 0
      || ltb 16 geometry.heads
      || geometry.sectors_per_track == 0
    then (false, geometry)
    else finish (
        with_flush identity (record geometry {
          sector_count = geometry.cylinders * geometry.heads * geometry.sectors_per_track % 2 ^ 32;
        }))

unfoldable pub read_identity : List ℕ → Device → Bool × Device
unfolding read_lba read_chs
read_identity identity device =
    if has_bits (get_or identity 49 0) 0x200
    then read_lba identity device
    else read_chs identity device

unfoldable pub reset : Device → Device
reset device = record device {
  status = sta_noinit;
  sector_count = 0;
  lba_supported = false;
  flush_supported = false;
  cylinders = 0;
  heads = 0;
  sectors_per_track = 0;
}

unfoldable pub conclude : Device → Option (List ℕ) → Bool × Device
unfolding read_identity
conclude device none = (false, device)
conclude device (some identity) = read_identity identity device

module _ (ports : Ports) where
  open ports use {World, inb, inw, outb, outw}

  -- The dialogue with the drive; `none` is one of the early returns.
  unfoldable pub request_identity : Device → World → Option (List ℕ) × World
  unfolding ata_select put_registers ata_read_status ata_wait read_words
  request_identity device w =
      let w = ata_select ports device 0 w in
      let w = put_registers ports device 0 0 0 0 w in
      let w = outb (device.io_base + 7) 0xEC w in
      let (status, w) = ata_read_status ports device w in
      if status == 0 || status == 0xFF
      then (none, w)
      else (let (calm, w) = ata_wait ports device 0x80 0 w in
          if not calm
          then (none, w)
          else (let (lba1, w) = inb (device.io_base + 4) w in
              if not (lba1 == 0)
              then (none, w)
              else (let (lba2, w) = inb (device.io_base + 5) w in
                  if not (lba2 == 0)
                  then (none, w)
                  else (let (ready, w) = ata_wait ports device 0x08 0x08 w in
                      if not ready
                      then (none, w)
                      else (let (identity, w) = read_words ports device 256 w in
                          (some identity, w))))))

  unfoldable pub ata_identify : Device → World → Bool × Device × World
  unfolding reset request_identity conclude
  ata_identify old w =
      let (identity, w') = request_identity (reset old) w in
      let (ok, device) = conclude (reset old) identity in (ok, device, w')

  -- The address of a sector, sent to the drive; `none` is the early RES_PARERR.
  unfoldable pub put_address : Device → ℕ → World → Option World
  put_address device sector w =
      if device.lba_supported
      then (let head = bit_or 0x40 (sector / 2 ^ 24 % 16) in
          some (
            put_registers ports device 1 (sector % 256) (sector / 2 ^ 8 % 256)
              (sector / 2 ^ 16 % 256) (ata_select ports device head w)))
      else (let sectors_per_cylinder = device.heads * device.sectors_per_track in
          let cylinder = sector / sectors_per_cylinder in
          let track_sector = sector % sectors_per_cylinder in
          let head_number = track_sector / device.sectors_per_track in
          let sector_number = track_sector % device.sectors_per_track + 1 in
          if leb device.cylinders cylinder || leb device.heads head_number
          then none
          else some (
              put_registers ports device 1 (sector_number % 256) (cylinder % 256)
                (cylinder / 256 % 256) (ata_select ports device (head_number % 256) w)))

  -- The words of a sector: those read are returned as bytes, and those written are taken from the
  -- front of the buffer.
  unfoldable pub move_words : Device → Bool → ℕ → List ℕ → World → List ℕ × World
  move_words device write zero buffer w = ([], w)
  move_words device true (suc n) buffer w =
      move_words device true n (drop 2 buffer)
        (outw device.io_base (bit_or (get_or buffer 0 0) (get_or buffer 1 0 * 256)) w)
  move_words device false (suc n) buffer w =
      let (value, w') = inw device.io_base w in
      let (bytes, w'') = move_words device false n buffer w' in
      (value % 256 ∷ value / 256 % 256 ∷ bytes, w'')

  -- The loop of `ata_transfer`. The bytes are those that a reading has stored in the buffer.
  unfoldable pub transfer_sectors :
      Device → Bool → List ℕ → ℕ → ℕ → World → DResult × List ℕ × World
  transfer_sectors device write buffer sector zero w = (res_ok, [], w)
  transfer_sectors device write buffer sector (suc count) w = elim (put_address device sector w) [
    | none ↦ (res_parerr, [], w)
    | some w1 ↦
        (let w2 = outb (device.io_base + 7) (if write then 0x30 else 0x20) w1 in
          let (ready, w3) = ata_wait ports device 0x08 0x08 w2 in
          elim ready [
            | false ↦ (res_error, [], w3)
            | true ↦
                (let (bytes, w4) = move_words device write 256 buffer w3 in
                  let (calm, w5) = ata_wait ports device 0x80 0 w4 in
                  elim calm [
                    | false ↦ (res_error, bytes, w5)
                    | true ↦
                        (let (result, more, w6) =
                            transfer_sectors device write (drop 512 buffer) ((sector + 1) % 2 ^ 32)
                              count w5 in
                          (result, bytes ++ more, w6))
                  ])
          ])
  ]

  unfoldable pub ata_transfer : Device → Bool → List ℕ → ℕ → ℕ → World → DResult × List ℕ × World
  ata_transfer device write buffer sector count w =
      if has_bits device.status sta_noinit
      then (res_notrdy, [], w)
      else if leb device.sector_count sector || ltb (device.sector_count - sector) count
      then (res_parerr, [], w)
      else transfer_sectors device write buffer sector count w
