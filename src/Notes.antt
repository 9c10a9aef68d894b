-- ===== src/Notes.antt =====
-- scripts/release_notes.py: the change record of a release.
pub mod Version
mod Tests
mod Examples
pub mod Fragment
pub mod Commits
pub mod Changes
pub mod Inputs
pub mod Build
