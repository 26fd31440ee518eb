-- ===== src/Tests.antt =====
-- Runs of the model at concrete inputs, and each theorem with hypotheses at one of them.
mod Reading
mod Naming
mod Csv
mod Watermark
mod Retry
mod Snapshot
mod SeenKeys
mod Replace
mod HashDiff
mod Partitions
mod Specs
mod Full
mod Download
mod Window
mod BySource
mod Abra
mod Quoting
mod Entrypoint
mod Parents
