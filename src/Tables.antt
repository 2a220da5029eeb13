-- ===== src/Tables.antt =====
-- tools/measure/bucketfs/tex_tables.py: from the rows of the matrix to the tables of the chapter.
pub mod Samples
pub mod Group
pub mod Figures
pub mod Cells
pub mod Grid
pub mod Notes
pub mod Baseline
pub mod Macros
pub mod Summarise
pub mod Document
