-- ===== src/Ahci/Driver.antt =====
-- The disks of src/kernel/drivers/ahci.c: their discovery, and the calls on them.
use my_dos.Base.{
  ℕ, zero, suc, ◌+◌, ◌*◌, ◌/◌, ◌%◌, ◌^◌, Bool, true, false, not, ◌&&◌, ◌||◌, List, [], Option, none,
  some, ltb, leb, ◌==◌, bit_and, bit_or, if◌then◌else◌, get_or,
}
use my_dos.Ahci.Machine.{Machine}
use my_dos.Ahci.Pci.{find_ahci_controller}
use my_dos.Ahci.Port.{
  port_clb, port_fb, port_is, port_sig, port_ssts, port_serr, port_read, port_write, port_stop,
  port_start,
}
use my_dos.Ahci.Command.{
  ata_cmd_identify, ata_cmd_read_dma_ext, ata_cmd_write_dma_ext, ata_cmd_read_dma,
  ata_cmd_write_dma, ata_cmd_flush_cache, issue_command,
}

-- The static variables.
pub record Disks : Type 0 where
  pub hba : ℕ
  pub disk_ports : ℕ → ℕ
  pub disk_sectors : ℕ → ℕ
  pub disk_flush_supported : ℕ → Bool
  pub disk_total : ℕ

-- The 16-bit word, and the 32-bit word, at an index of the identification data.
abbrev pub half_at : List ℕ → ℕ → ℕ
half_at identify i = get_or identify i 0 + get_or identify (i + 1) 0 * 256

abbrev pub word_at : List ℕ → ℕ → ℕ
word_at identify i =
    get_or identify i 0
    + get_or identify (i + 1) 0 * 256
    + get_or identify (i + 2) 0 * 65536
    + get_or identify (i + 3) 0 * 16777216

-- (word83 & 0xC000u) == 0x4000u
abbrev pub is_valid_word : ℕ → Bool
is_valid_word word83 = bit_and word83 0xC000 == 0x4000

unfoldable pub identify_sectors : List ℕ → ℕ
identify_sectors identify =
    let word83 = half_at identify 166 in
    if is_valid_word word83 && not (bit_and word83 1024 == 0)
    then word_at identify 200
    else word_at identify 120

abbrev pub ata_lba28_sectors : ℕ
ata_lba28_sectors = 0x10000000

-- disk_x[disk_total] = value
abbrev pub put {ℓ} : {A : Type ℓ} → ℕ → A → (ℕ → A) → ℕ → A
put n value table i = if i == n then value else table i

-- The assignments for a disk that was identified.
unfoldable pub add_disk : ℕ → List ℕ → Disks → Disks
add_disk port identify d =
    let word83 = half_at identify 166 in
    record d {
      disk_ports = put d.disk_total port d.disk_ports;
      disk_sectors = put d.disk_total (identify_sectors identify) d.disk_sectors;
      disk_flush_supported =
          put d.disk_total (is_valid_word word83 && not (bit_and word83 4096 == 0))
            d.disk_flush_supported;
      disk_total = d.disk_total + 1;
    }

-- The command for a sector, which does not fit 28 bits or does.
unfoldable pub transfer_command : ℕ → Bool → ℕ
transfer_command sector write =
    if ltb sector ata_lba28_sectors
    then if write then ata_cmd_write_dma else ata_cmd_read_dma
    else if write
    then ata_cmd_write_dma_ext
    else ata_cmd_read_dma_ext

abbrev pub refuses : ℕ → ℕ → Disks → Bool
refuses disk sector d = leb d.disk_total disk || leb (d.disk_sectors disk) sector

module _ (m : Machine) where
  open m use {
    World, hba_read, hba_write, header, put_header, transfer_buffer, put_buffer, list_address,
    fis_address, table_address,
  }

  -- The writes to a port that is stopped.
  unfoldable pub set_up_port : ℕ → ℕ → World → World
  set_up_port hba port w =
      let w1 = put_header port (record (header port w) { table_low = table_address port }) w in
      let w2 = port_write m hba port port_clb (list_address port) w1 in
      let w3 = port_write m hba port (port_clb + 4) 0 w2 in
      let w4 = port_write m hba port port_fb (fis_address port) w3 in
      let w5 = port_write m hba port (port_fb + 4) 0 w4 in
      let w6 = port_write m hba port port_is 0xFFFFFFFF w5 in
      port_write m hba port port_serr 0xFFFFFFFF w6

  -- Is an active disk connected, and is it an ATA disk? The signature is read only of the former.
  unfoldable pub is_disk : ℕ → ℕ → World → Bool × World
  is_disk hba port w =
      let (ssts, w1) = port_read m hba port port_ssts w in
      let (signature, w2) = port_read m hba port port_sig w1 in
      if bit_and ssts 0x0F == 0x03 && bit_and ssts 0x0F00 == 0x0100
      then (signature == 0x00000101, w2)
      else (false, w1)

  -- What becomes of a port whose disk was identified, or not: `left` is the machine once the port is
  -- stopped again.
  abbrev pub keep_disk : ℕ → Bool → List ℕ → Disks → World → World → Disks × World
  keep_disk port identified identify d left w =
      if not identified || identify_sectors identify == 0
      then (d, left)
      else (add_disk port identify d, w)

  -- The port is stopped, set up and started, and its disk identified.
  unfoldable pub identify_port : ℕ → Disks × World → Disks × World
  identify_port port (d, w) =
      let (stopped, w1) = port_stop m d.hba port w in
      let (started, w2) = port_start m d.hba port (set_up_port d.hba port w1) in
      let (identified, w3) = issue_command m d.hba port ata_cmd_identify 0 1 true false w2 in
      if not stopped
      then (d, w1)
      else if not started
      then (d, w2)
      else keep_disk port identified (transfer_buffer w3) d (port_stop m d.hba port w3).1 w3

  -- One round of the loop over the ports, where `implemented` is the bit map of the ports.
  unfoldable pub try_port : ℕ → ℕ → Disks × World → Disks × World
  try_port implemented port (d, w) =
      let (present, w') = is_disk d.hba port w in
      if implemented / 2 ^ port % 2 == 0
      then (d, w)
      else if not present
      then (d, w')
      else identify_port port (d, w')

  -- The loop: n rounds from a port on, as long as there is room for another disk.
  unfoldable pub try_ports : ℕ → ℕ → ℕ → Disks × World → Disks × World
  try_ports zero port implemented s = s
  try_ports (suc n) port implemented s = elim (ltb s.0.disk_total 4) [
    | true ↦ try_ports n (suc port) implemented (try_port implemented port s)
    | false ↦ s
  ]

  -- What follows the search for the controller.
  abbrev pub start_controller : Disks → Option ℕ → World → Disks × World
  start_controller d none w = (record d { hba = 0; disk_total = 0 }, w)
  start_controller d (some hba) w =
      let (control, w1) = hba_read hba 0x04 w in
      let w2 = hba_write hba 0x04 (bit_or control 0x80000000) w1 in
      let (implemented, w3) = hba_read hba 0x0C w2 in
      try_ports 32 0 implemented (record d { hba = hba; disk_total = 0 }, w3)

  unfoldable pub ahci_init : Disks × World → Disks × World
  ahci_init (d, w) = let (found, w1) = find_ahci_controller m w in start_controller d found w1

  unfoldable pub ahci_disk_count : Disks × World → ℕ
  ahci_disk_count s = s.0.disk_total

  unfoldable pub ahci_sector_count : ℕ → Disks × World → ℕ
  ahci_sector_count disk s = if ltb disk s.0.disk_total then s.0.disk_sectors disk else 0

  -- What is given to write is copied to the transfer buffer first.
  unfoldable pub issue_transfer : ℕ → ℕ → Bool → List ℕ → Disks × World → Bool × World
  issue_transfer disk sector write bytes (d, w) =
      issue_command m d.hba (d.disk_ports disk) (transfer_command sector write) sector 1 true write
        (if write then put_buffer bytes w else w)

  -- `ahci_transfer` for a buffer that is not a null pointer.
  unfoldable pub ahci_read : ℕ → ℕ → Disks × World → Bool × List ℕ × (Disks × World)
  ahci_read disk sector (d, w) =
      let (done, w') = issue_transfer disk sector false [] (d, w) in
      if refuses disk sector d
      then (false, [], (d, w))
      else if done
      then (true, transfer_buffer w', (d, w'))
      else (false, [], (d, w'))

  unfoldable pub ahci_write : ℕ → ℕ → List ℕ → Disks × World → Bool × (Disks × World)
  ahci_write disk sector bytes (d, w) =
      let (done, w') = issue_transfer disk sector true bytes (d, w) in
      if refuses disk sector d then (false, (d, w)) else (done, (d, w'))

  unfoldable pub ahci_flush : ℕ → Disks × World → Bool × (Disks × World)
  ahci_flush disk (d, w) =
      let (done, w') =
        issue_command m d.hba (d.disk_ports disk) ata_cmd_flush_cache 0 0 false false w in
      if leb d.disk_total disk
      then (false, (d, w))
      else if not (d.disk_flush_supported disk)
      then (true, (d, w))
      else (done, (d, w'))
