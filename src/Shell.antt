-- ===== src/Shell.antt =====
-- src/kernel/kernel.c: the shell.
pub mod Help
pub mod Fetch
pub mod Times
pub mod Echo
pub mod Files
pub mod State
pub mod Commands
pub mod Loop
pub mod Start
pub mod FilesOnScreen
pub mod OnScreen
pub mod Rounds
pub mod Invariant
pub mod Starting
pub mod Typing
pub mod Widths
pub mod Visiting
pub mod Editing
mod Tests
