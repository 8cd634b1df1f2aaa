-- ===== src/Shell.antt =====
-- src/kernel/shell.c.
pub mod Tokens
pub mod Builtins
pub mod Render
pub mod Printed
pub mod Line
pub mod Edit
pub mod Run
mod Tests
