-- ===== src/Core.antt =====
-- The kernel's C++ classes (src/kernel/core).
pub mod Boot
pub mod Console
pub mod Files
pub mod Memory
pub mod Strings
