-- ===== src/Pack.antt =====
-- qrexec-lib/pack.c: the sender of a file transfer. The children are, in the order of the source, the
-- process state and its exits, the answer of the receiver, and what is sent.
pub mod Process
pub mod Result
pub mod Send
pub mod Rules
pub mod Frame
pub mod Sums
