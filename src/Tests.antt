-- ===== src/Tests.antt =====
-- Runs of the definitions on concrete inputs, in a module for each part.
pub mod Pure
pub mod Display
pub mod Transfer
pub mod Sender
pub mod Gpt
pub mod Gptfix
pub mod BlockDevice
pub mod Memory
