-- ===== src/Usb.antt =====
-- src/kernel/usb.c: the decoded-key queue and software typematic, TRB rings, descriptors.
pub mod Keymap
pub mod Report
pub mod TrbRing
pub mod Interval
pub mod Config
pub mod Driver
mod Tests
