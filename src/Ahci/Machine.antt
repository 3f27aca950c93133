-- ===== src/Ahci/Machine.antt =====
-- The machine below src/kernel/drivers/ahci.c: the ports of the PCI configuration, the registers of the
-- controller, and the memory that it shares with the driver.
use my_dos.Base.{ℕ, List}

-- `ahci_command_header_t`, without its reserved words.
pub record Header : Type 0 where
  pub options : ℕ
  pub transferred : ℕ
  pub table_low : ℕ
  pub table_high : ℕ

-- `ahci_command_table_t`: the 64 bytes of the command, and the one entry of the region table.
pub record Table : Type 0 where
  pub fis : List ℕ
  pub address_low : ℕ
  pub address_high : ℕ
  pub byte_count : ℕ

-- `World` is all that lies behind. The registers are 32-bit words at an offset from the controller's
-- address, of which the first argument tells. A port's header and table, and the buffer of one sector,
-- are in memory, where the controller reads and writes them; their addresses do not change.
pub record Machine : Type 1 where
  pub World : Type 0
  pub inl : ℕ → World → ℕ × World
  pub outl : ℕ → ℕ → World → World
  pub io_wait : World → World
  pub hba_read : ℕ → ℕ → World → ℕ × World
  pub hba_write : ℕ → ℕ → ℕ → World → World
  pub header : ℕ → World → Header
  pub put_header : ℕ → Header → World → World
  pub put_table : ℕ → Table → World → World
  pub transfer_buffer : World → List ℕ
  pub put_buffer : List ℕ → World → World
  pub list_address : ℕ → ℕ
  pub fis_address : ℕ → ℕ
  pub table_address : ℕ → ℕ
  pub buffer_address : ℕ
