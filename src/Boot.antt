-- ===== src/Boot.antt =====
-- src/efi/boot.c, the UEFI loader.
pub mod KernelLoad
pub mod Confined
pub mod Relocs
pub mod Divide
pub mod Log
mod Pixels
pub mod Panel
pub mod Files
pub mod Leave
pub mod Splash
mod Tests
