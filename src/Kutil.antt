-- ===== src/Kutil.antt =====
-- src/util/kutil.c.
pub mod Align
pub mod Memory
pub mod Remove
pub mod Strings
mod Tests
