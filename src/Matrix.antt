-- ===== src/Matrix.antt =====
-- tools/measure/bucketfs/run_matrix.py: the driver of the comparison matrix.
pub mod Rows
pub mod Rig
pub mod Experiments
pub mod Summary
pub mod Payload
pub mod Workshop
pub mod Cells
pub mod Drive
pub mod Plain
pub mod Bucket
pub mod Main
