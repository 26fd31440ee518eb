-- ===== src/Naming.antt =====
-- src/dbextractors/core/naming.py: the names of the target's columns.
pub mod Words
pub mod Unicode
pub mod Mapping
pub mod Reserved
pub mod Columns
