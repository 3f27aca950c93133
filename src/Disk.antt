-- ===== src/Disk.antt =====
-- src/fs/fatfs/source/diskio.c, which the kernel brings for FatFs: the driver of the four ATA
-- drives, and the calls that FatFs makes on a drive.
pub mod Ports
pub mod Device
pub mod Ata
pub mod Calls
pub mod Identify
pub mod Drive
pub mod Waiting
pub mod Addressing
pub mod Reading
pub mod Writing
pub mod RoundTrip
pub mod Simulated
pub mod Kept
pub mod Guards
mod Tests
