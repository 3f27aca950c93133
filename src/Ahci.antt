-- ===== src/Ahci.antt =====
-- src/kernel/drivers/ahci.c: the driver of the AHCI disks.
pub mod Machine
pub mod Pci
pub mod Port
pub mod Command
pub mod Driver
pub mod Fis
pub mod Disks
pub mod Interface
mod Tests
