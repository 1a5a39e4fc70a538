-- ===== src/Unpack.antt =====
-- qrexec-lib/unpack.c: the receiver of a file transfer. The children are, in the order of the source,
-- the process state and its exits, the header, the walk to a directory, the three kinds of entries,
-- and the loop over the entries.
pub mod Process
pub mod Header
pub mod Walk
pub mod Entry
pub mod Transfer
pub mod Rules
pub mod Safety
pub mod Rounds
pub mod Status
