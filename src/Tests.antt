-- ===== src/Tests.antt =====
-- Runs of the programs of tools/measure on concrete machines, rigs and rows.
pub mod Machine
mod Poller
pub mod Cluster
pub mod Exasol
mod Matrix
mod Tables
pub mod Cells
mod Drive
mod Shelf
pub mod Plain
mod Digest
mod Run
mod Live
mod Peak
mod Tail
