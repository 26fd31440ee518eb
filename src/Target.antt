-- ===== src/Target.antt =====
-- src/dbextractors/core/target_pg.py: the target PostgreSQL side.
pub mod Sql
pub mod Deletion
pub mod Snapshot
pub mod SeenKeys
pub mod Replace
pub mod Shadow
pub mod CsvReader
pub mod Table
pub mod Slices
