-- ===== src/Tests.antt =====
-- Concrete runs of the model, and its theorems at concrete inputs.
pub mod Samples
mod Purging
mod JsonModel
pub mod ElfFile
mod Elf
mod ElfNarrow
mod Files
mod Writing
mod Reading
pub mod Pdb
mod Trees
mod Fields
mod Lists
mod Windows
mod Arrays
mod Names
mod Programs
mod Printing
