-- ===== src/Poller.antt =====
-- tools/measure/bucketfs/poller.py: watching one file, or one tree, on every node of a cluster.
pub mod Loop
pub mod Arrival
pub mod Watch
pub mod Absent
pub mod Main
