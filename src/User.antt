-- ===== src/User.antt =====
-- src/user: the programs.
pub mod Primes
pub mod Calls
pub mod Snake
mod Tests
