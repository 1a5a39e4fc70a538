-- ===== src/NotScript.antt =====
-- not-script/not-script.c: the hotplug program of a block device. The children are the numbers in
-- XenStore's values, the calls, the set-up of a loop device, and the two actions.
pub mod Hex
pub mod Process
pub mod Device
pub mod Remove
pub mod Add
pub mod Rules
