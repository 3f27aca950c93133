-- ===== src/Ahci/Command.antt =====
-- `issue_command` of src/kernel/drivers/ahci.c.
use my_dos.Base.{
  ℕ, zero, suc, ◌+◌, ◌*◌, ◌-◌, ◌/◌, ◌%◌, ◌^◌, Bool, true, false, not, ◌||◌, List, ◌∷◌, ◌==◌,
  bit_and, bit_or, if◌then◌else◌, replicate,
}
use my_dos.Ahci.Machine.{Machine, Header, Table}
use my_dos.Ahci.Port.{ahci_timeout, port_is, port_ci, port_read, port_write, port_wait}

abbrev pub ata_cmd_identify : ℕ
ata_cmd_identify = 0xEC

abbrev pub ata_cmd_read_dma_ext : ℕ
ata_cmd_read_dma_ext = 0x25

abbrev pub ata_cmd_write_dma_ext : ℕ
ata_cmd_write_dma_ext = 0x35

abbrev pub ata_cmd_read_dma : ℕ
ata_cmd_read_dma = 0xC8

abbrev pub ata_cmd_write_dma : ℕ
ata_cmd_write_dma = 0xCA

abbrev pub ata_cmd_flush_cache : ℕ
ata_cmd_flush_cache = 0xE7

abbrev pub is_ext : ℕ → Bool
is_ext command = command == ata_cmd_read_dma_ext || command == ata_cmd_write_dma_ext

-- The bytes of the command, for a number of sectors of sixteen bits; the table was filled with zeros.
unfoldable pub command_fis : ℕ → ℕ → ℕ → List ℕ
command_fis command lba sectors =
    if is_ext command
    then 0x27
      ∷ 0x80
      ∷ command
      ∷ 0
      ∷ lba % 256
      ∷ (lba / 256 % 256)
      ∷ (lba / 65536 % 256)
      ∷ 0x40
      ∷ (lba / 16777216 % 256)
      ∷ (lba / 4294967296 % 256)
      ∷ (lba / 1099511627776 % 256)
      ∷ 0
      ∷ sectors % 256
      ∷ (sectors / 256 % 256)
      ∷ replicate 50 0
    else 0x27
      ∷ 0x80
      ∷ command
      ∷ 0
      ∷ lba % 256
      ∷ (lba / 256 % 256)
      ∷ (lba / 65536 % 256)
      ∷ bit_or 0xE0 (lba / 16777216 % 16)
      ∷ 0
      ∷ 0
      ∷ 0
      ∷ 0
      ∷ sectors % 256
      ∷ 0
      ∷ replicate 50 0

-- The header that is left after its assignments: five words of command, a write or not, one region or
-- none.
unfoldable pub command_header : ℕ → Bool → Bool → Header
command_header table has_buffer write = record {
  options = bit_or ((if write then bit_or 5 64 else 5) % 65536) (if has_buffer then 65536 else 0);
  transferred = 0;
  table_low = table;
  table_high = 0;
}

unfoldable pub command_table : ℕ → ℕ → ℕ → ℕ → Bool → Table
command_table command lba sectors buffer has_buffer = record {
  fis = command_fis command lba sectors;
  address_low = if has_buffer then buffer else 0;
  address_high = 0;
  byte_count = if has_buffer then (sectors * 512 + 2 ^ 32 - 1) % 2 ^ 32 else 0;
}

module _ (m : Machine) (hba : ℕ) where
  open m use {World, io_wait, header, put_header, put_table, table_address, buffer_address}

  -- The loop that waits for the end of the command, with the rounds that are left: an error ends it,
  -- and so does the controller when it takes the command off its list.
  unfoldable pub await_end : ℕ → ℕ → ℕ → World → Bool × World
  await_end zero port sectors w = (false, w)
  await_end (suc n) port sectors w =
      let (interrupt_status, w1) = port_read m hba port port_is w in
      let (issued, w2) = port_read m hba port port_ci w1 in
      elim (not (bit_and interrupt_status 0x40000000 == 0)) [
        | true ↦ (false, w1)
        | false ↦ elim (bit_and issued 1 == 0) [
          | true ↦ ((header port w2).transferred == sectors * 512, w2)
          | false ↦ await_end n port sectors (io_wait w2)
        ]
      ]

  -- `has_buffer` tells whether the transfer buffer is passed, or a null pointer.
  unfoldable pub issue_command : ℕ → ℕ → ℕ → ℕ → Bool → Bool → World → Bool × World
  issue_command port command lba sectors has_buffer write w =
      let (ready, w1) = port_wait m hba port (bit_or 0x80 0x08) 0 w in
      let w2 = port_write m hba port port_is 0xFFFFFFFF w1 in
      let w3 = put_table port (command_table command lba sectors buffer_address has_buffer) w2 in
      let w4 = put_header port (command_header (table_address port) has_buffer write) w3 in
      let w5 = port_write m hba port port_ci 1 w4 in
      if ready then await_end ahci_timeout port sectors w5 else (false, w1)
