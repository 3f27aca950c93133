-- ===== src/Disk/Addressing.antt =====
-- The address of a sector on its way to a drive that keeps its promises, `ata_transfer` of
-- src/fs/fatfs/source/diskio.c.
use my_dos.Base.{ℕ, ◌+◌, ◌*◌, ◌/◌, ◌%◌, ◌^◌, ◌<◌, ◌≡◌, refl, ◌∙◌, arith, true, bit_or, some}
use my_dos.Disk.Ports.{Ports}
use my_dos.Disk.Device.{Device}
use my_dos.Disk.Ata.{ata_select, ata_delay, put_registers, put_address}
use my_dos.Disk.Drive.{Drive}
use my_dos.Disk.Waiting.{busy-ata_delay, Same-ata_delay, drive_byte}

module _ (ports : Ports) (device : Device) (drive : Drive ports device) where
  open ports use {World, outb}
  open drive use {reg, stored, queue, taking, busy, write_register}

  -- The drive holds an address, and nothing else has changed.
  pub record Addressed (w w' : World) (seccount lba0 lba1 lba2 head : ℕ) : Type 0 where
    pub reg2 : reg 2 w' ≡ seccount
    pub reg3 : reg 3 w' ≡ lba0
    pub reg4 : reg 4 w' ≡ lba1
    pub reg5 : reg 5 w' ≡ lba2
    pub reg6 : reg 6 w' ≡ head
    pub sectors : (n : ℕ) → stored n w' ≡ stored n w
    pub waiting : queue w' ≡ queue w
    pub taken : taking w' ≡ taking w
    pub ready : busy w' ≡ 0

  put_registers-Addressed :
      (seccount lba0 lba1 lba2 : ℕ) (w : World)
      → busy w ≡ 0
      → Addressed w
          (put_registers ports device seccount lba0 lba1 lba2 w)
          seccount
          lba0
          lba1
          lba2
          (reg 6 w)
  unfolding put_registers
  put_registers-Addressed seccount lba0 lba1 lba2 w b1 =
      let w2 = outb (device.io_base + 2) seccount w in
      let w3 = outb (device.io_base + 3) lba0 w2 in
      let w4 = outb (device.io_base + 4) lba1 w3 in
      let (r2, k2, s2, q2, t2, b2) = write_register 2 seccount w b1 (omega arith) (omega arith) in
      let (r3, k3, s3, q3, t3, b3) = write_register 3 lba0 w2 b2 (omega arith) (omega arith) in
      let (r4, k4, s4, q4, t4, b4) = write_register 4 lba1 w3 b3 (omega arith) (omega arith) in
      let (r5, k5, s5, q5, t5, b5) = write_register 5 lba2 w4 b4 (omega arith) (omega arith) in
      record {
        reg2 = k5 2 (omega arith) ∙ k4 2 (omega arith) ∙ k3 2 (omega arith) ∙ r2;
        reg3 = k5 3 (omega arith) ∙ k4 3 (omega arith) ∙ r3;
        reg4 = k5 4 (omega arith) ∙ r4;
        reg5 = r5;
        reg6 = k5 6 (omega arith) ∙ k4 6 (omega arith) ∙ k3 6 (omega arith) ∙ k2 6 (omega arith);
        sectors = λ n. s5 n ∙ s4 n ∙ s3 n ∙ s2 n;
        waiting = q5 ∙ q4 ∙ q3 ∙ q2;
        taken = t5 ∙ t4 ∙ t3 ∙ t2;
        ready = b5;
      }

  -- The address of a sector below 2 ^ 28.
  pub put_address-Addressed :
      (sector : ℕ) (w : World)
      → busy w ≡ 0
      → device.lba_supported ≡ true
      → device.slave < 2
      → (w' : World) × (put_address ports device sector w ≡ some w')
        × Addressed w w' 1
            (sector % 256)
            (sector / 2 ^ 8 % 256)
            (sector / 2 ^ 16 % 256)
            (0xE0 + device.slave * 16 + sector / 2 ^ 24 % 16)
  unfolding put_address ata_select
  put_address-Addressed sector w still lba hs =
      let head = bit_or 0x40 (sector / 2 ^ 24 % 16) in
      let v = bit_or (bit_or 0xA0 (device.slave * 16)) head % 256 in
      let w1 = outb (device.io_base + 6) v w in
      let w2 = ata_delay ports device w1 in
      let (r, k, s, q, t, b) = write_register 6 v w still (omega arith) (omega arith) in
      let delay = Same-ata_delay ports device drive w1 in
      let a =
        put_registers-Addressed 1 (sector % 256) (sector / 2 ^ 8 % 256) (sector / 2 ^ 16 % 256) w2
          (busy-ata_delay ports device drive w1 b) in
      let byte = drive_byte device.slave (sector / 2 ^ 24 % 16) hs (omega arith) in
      (
        put_registers ports device 1 (sector % 256) (sector / 2 ^ 8 % 256) (sector / 2 ^ 16 % 256)
            w2,
        rw lba refl,
        record {
          reg2 = a.reg2;
          reg3 = a.reg3;
          reg4 = a.reg4;
          reg5 = a.reg5;
          reg6 = a.reg6 ∙ delay.regs 6 ∙ r ∙ byte;
          sectors = λ n. a.sectors n ∙ delay.sectors n ∙ s n;
          waiting = a.waiting ∙ delay.waiting ∙ q;
          taken = a.taken ∙ delay.taken ∙ t;
          ready = a.ready;
        },
      )
