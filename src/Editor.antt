-- ===== src/Editor.antt =====
-- MyEditor, src/programs/myeditor/myeditor.c.
pub mod Document
pub mod Cells
pub mod Lines
pub mod Breaks
pub mod Joins
pub mod Loader
pub mod Scanning
pub mod Load
pub mod SavedText
pub mod RoundTrip
pub mod Session
pub mod Storage
pub mod Invariant
pub mod Saving
pub mod Opening
pub mod Prompts
pub mod Loop
pub mod SafeLoading
pub mod SafePrompts
pub mod Safety
pub mod Screen
pub mod Drawing
pub mod Visible
pub mod Ending
mod Tests
