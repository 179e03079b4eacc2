-- ===== src/ReCore.antt =====
-- Libraries/RECore: buffers and containers.
pub mod Memory
pub mod Buffer
pub mod Writer
pub mod Reader
pub mod Tree
pub mod Linked
pub mod StringConverter
pub mod Windows
pub mod Processes
pub mod Dialogue
pub mod Array
