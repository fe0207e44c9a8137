-- ===== src/Memory.antt =====
-- Memory management (src/kernel/arch/x86/memory).
pub mod Heap
pub mod Kheap
pub mod Paging
