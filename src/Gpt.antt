-- ===== src/Gpt.antt =====
-- gptfixer/gpt.c: the GUID partition table. The children are the structures on disk, the sector
-- arithmetic, the checks of a header and of a protective MBR, the reader of a table, the conversion of
-- a table to another sector size, and the writer.
pub mod Disk
pub mod Sector
pub mod Header
pub mod Mbr
pub mod Reader
pub mod Adjust
pub mod Writer
pub mod Main
