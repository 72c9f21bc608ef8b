-- ===== src/Tests.antt =====
-- The theorems applied to concrete inputs, by the part of the program.
mod InputTests
mod TargetTests
mod Samples
mod ScannerTests
mod SnapshotTests
mod OutputTests
mod CliTests
mod WorkerTests
mod ServiceTests
mod CommandTests
mod TransparencyTests
