-- ===== src/Disk/Ports.antt =====
-- The machine's ports, and the AHCI driver of src/kernel/drivers/ahci.c as
-- src/fs/fatfs/source/diskio.c calls it.
use my_dos.Base.{ℕ, Bool, List}

-- `World` is all that lies behind the ports. The instructions `in` and `out`, for bytes and words.
pub record Ports : Type 1 where
  pub World : Type 0
  pub inb : ℕ → World → ℕ × World
  pub inw : ℕ → World → ℕ × World
  pub outb : ℕ → ℕ → World → World
  pub outw : ℕ → ℕ → World → World

module _ (ports : Ports) where
  open ports use {World}

  -- A sector is read from, or written by, a list of 512 bytes; the Boolean tells of success.
  pub record Ahci : Type 0 where
    pub ahci_init : World → World
    pub ahci_disk_count : World → ℕ
    pub ahci_sector_count : ℕ → World → ℕ
    pub ahci_read : ℕ → ℕ → World → Bool × List ℕ × World
    pub ahci_write : ℕ → ℕ → List ℕ → World → Bool × World
    pub ahci_flush : ℕ → World → Bool × World
