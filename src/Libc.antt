-- ===== src/Libc.antt =====
-- The freestanding C library of the kernel (src/kernel/libc).
pub mod Memory
pub mod Numbers
pub mod Strings
