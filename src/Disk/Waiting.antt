-- ===== src/Disk/Waiting.antt =====
-- `ata_wait`, `ata_select` and the address registers of src/fs/fatfs/source/diskio.c on a drive that
-- keeps its promises.
use my_dos.Base.{
  ℕ, zero, suc, ◌+◌, ◌*◌, ◌%◌, ◌<◌, ◌≡◌, ◌≢◌, refl, ap, sym, ◌∙◌, arith, true, false, not,
  Bool-cases, inl, inr, bit_and, bit_or, [], none, ◌==◌, ==→eq, passes_below_lem, dec_lt,
}
unfoldable use my_dos.Base.{passes_below}
use my_dos.Disk.Ports.{Ports}
use my_dos.Disk.Device.{Device}
use my_dos.Disk.Ata.{ata_read_status, wait_rounds, ata_wait, ata_delay}
use my_dos.Disk.Drive.{Drive}

pub drive_byte :
    (slave top : ℕ)
    → slave < 2
    → top < 16
    → bit_or (bit_or 0xA0 (slave * 16)) (bit_or 0x40 top) % 256 ≡ 0xE0 + slave * 16 + top
unfolding passes_below
drive_byte slave top hs ht =
    ==→eq (bit_or (bit_or 0xA0 (slave * 16)) (bit_or 0x40 top) % 256) (0xE0 + slave * 16 + top) (
      passes_below_lem 16
        (λ t. bit_or (bit_or 0xA0 (slave * 16)) (bit_or 0x40 t) % 256 == (0xE0 + slave * 16 + t))
        top
        (passes_below_lem 2
          (λ s.
            passes_below 16
              (λ t. bit_or (bit_or 0xA0 (s * 16)) (bit_or 0x40 t) % 256 == (0xE0 + s * 16 + t)))
          slave refl hs)
        ht)

module _ (ports : Ports) (device : Device) (drive : Drive ports device) where
  open ports use {World, inb, inw, outb}
  open drive use {
    reg, stored, queue, taking, busy, fault, not_stuck, alternate, status, present, is_busy,
    is_ready, write_register,
  }

  -- Two worlds that differ in nothing but the time.
  pub record Same (w w' : World) : Type 0 where
    pub regs : (k : ℕ) → reg k w' ≡ reg k w
    pub sectors : (n : ℕ) → stored n w' ≡ stored n w
    pub waiting : queue w' ≡ queue w
    pub taken : taking w' ≡ taking w
    pub failed : fault w' ≡ fault w

  pub Same-refl : (w : World) → Same w w
  Same-refl w = record {
    regs = λ k. refl;
    sectors = λ n. refl;
    waiting = refl;
    taken = refl;
    failed = refl;
  }

  pub Same-trans : (a b c : World) → Same a b → Same b c → Same a c
  Same-trans a b c h k = record {
    regs = λ i. k.regs i ∙ h.regs i;
    sectors = λ n. k.sectors n ∙ h.sectors n;
    waiting = k.waiting ∙ h.waiting;
    taken = k.taken ∙ h.taken;
    failed = k.failed ∙ h.failed;
  }

  Same-status : (w : World) → Same w (inb (device.io_base + 7) w).1
  Same-status w =
      let (r, s, q, t, f, b) = status w in
      record { regs = r; sectors = s; waiting = q; taken = t; failed = f }

  -- The wait ends as soon as the drive is not busy, and well if the command has not failed and the
  -- test then holds of the status.
  wait_rounds-Same :
      (n mask value : ℕ) (w : World)
      → busy w < n
      → ((w' : World)
          → Same w w'
          → busy w' ≡ 0
          → fault w' ≡ false
          → (bit_and (inb (device.io_base + 7) w').0 mask == value) ≡ true)
      → (let out = wait_rounds ports device mask value n w in
          (out.0 ≡ not (fault w)) × Same w out.1 × (busy out.1 ≡ 0))
  unfolding wait_rounds ata_read_status
  wait_rounds-Same zero mask value w h test = absurd (omega arith)
  wait_rounds-Same (suc n) mask value w h test = elim (dec_lt 0 (busy w)) [
    | yes b ↦
        let w' = (inb (device.io_base + 7) w).1 in
        let (r, s, q, t, f, less) = status w in
        let (ok, same, ready) =
          wait_rounds-Same n mask value w' (omega (arith, less))
            (λ w'' k. test w'' (Same-trans w w' w'' (Same-status w) k)) in
        rw (present w, is_busy w b, wait_rounds)
          (ok ∙ ap not f, Same-trans w w' _ (Same-status w) same, ready)
    | no b ↦
        let z : busy w ≡ 0 = omega arith in
        let (calm, error, drq, take) = is_ready w z in
        let (r, s, q, t, f, less) = status w in
        let ready : busy (inb (device.io_base + 7) w).1 ≡ 0 = omega (arith, less, z) in
        elim (Bool-cases (fault w)) [
          | inl e ↦ rw (present w, calm, error, e, wait_rounds) (refl, Same-status w, ready)
          | inr e ↦
              rw (present w, calm, error, e, test w (Same-refl w) z e, wait_rounds)
                (refl, Same-status w, ready)
        ]
  ]

  pub ata_wait-calm :
      (w : World)
      → (let out = ata_wait ports device 0x80 0 w in
          (out.0 ≡ not (fault w)) × Same w out.1 × (busy out.1 ≡ 0))
  unfolding ata_wait
  ata_wait-calm w =
      wait_rounds-Same 1000000 0x80 0 w (not_stuck w)
        (λ w' k z f. ground (arith, (is_ready w' z).0))

  -- The drive has words to give, unless the command has failed.
  pub ata_wait-drq :
      (w : World)
      → (fault w ≡ false → queue w ≢ [])
      → (let out = ata_wait ports device 0x08 0x08 w in
          (out.0 ≡ not (fault w)) × Same w out.1 × (busy out.1 ≡ 0))
  unfolding ata_wait
  ata_wait-drq w some_words = wait_rounds-Same 1000000 0x08 0x08 w (not_stuck w) (λ w' k z f.
      let (c, g, drq, t) = is_ready w' z in
      drq f (λ e. some_words (sym k.failed ∙ f) (sym k.waiting ∙ e)))

  pub ata_wait-taking :
      (w : World)
      → taking w ≢ none
      → (let out = ata_wait ports device 0x08 0x08 w in
          (out.0 ≡ not (fault w)) × Same w out.1 × (busy out.1 ≡ 0))
  unfolding ata_wait
  ata_wait-taking w some_sector = wait_rounds-Same 1000000 0x08 0x08 w (not_stuck w) (λ w' k z f.
      let (c, g, q, take) = is_ready w' z in take f (λ e. some_sector (sym k.taken ∙ e)))

  Same-alternate : (w : World) → Same w (inb device.control_base w).1
  Same-alternate w =
      let (r, s, q, t, f, b) = alternate w in
      record { regs = r; sectors = s; waiting = q; taken = t; failed = f }

  pub busy-ata_delay : (w : World) → busy w ≡ 0 → busy (ata_delay ports device w) ≡ 0
  unfolding ata_delay
  busy-ata_delay w h =
      let w1 = (inb device.control_base w).1 in
      let w2 = (inb device.control_base w1).1 in
      let w3 = (inb device.control_base w2).1 in
      let (_, _, _, _, _, b1) = alternate w in
      let (_, _, _, _, _, b2) = alternate w1 in
      let (_, _, _, _, _, b3) = alternate w2 in
      let (_, _, _, _, _, b4) = alternate w3 in omega (arith, h, b1, b2, b3, b4)

  pub Same-ata_delay : (w : World) → Same w (ata_delay ports device w)
  unfolding ata_delay
  Same-ata_delay w =
      let w1 = (inb device.control_base w).1 in
      let w2 = (inb device.control_base w1).1 in
      let w3 = (inb device.control_base w2).1 in
      let w4 = (inb device.control_base w3).1 in
      Same-trans w w1 w4 (Same-alternate w) (
        Same-trans w1 w2 w4 (Same-alternate w1)
          (Same-trans w2 w3 w4 (Same-alternate w2) (Same-alternate w3)))
