-- ===== src/Memory/Kheap.antt =====
-- The kernel's heap, src/kernel/arch/x86/memory/kheap.c. What the functions print is left out.
pub mod Booted
pub mod Laws
pub mod Packed
mod Tests
use larva_os.Base.{ℕ, ◌+◌, ◌/◌, ◌==◌, if◌then◌else◌, Ram, null, u32}
use larva_os.Libc.Memory.{memset}
use larva_os.Memory.Heap
use larva_os.Memory.Heap.{Heap, HeapTable, block_size, heap_create}

abbrev pub kernel_heap_size_bytes : ℕ
kernel_heap_size_bytes = 0x06400000

abbrev pub kernel_heap_start_address : ℕ
kernel_heap_start_address = 0x01000000

abbrev pub heap_table_address : ℕ
heap_table_address = 0x00007e00

-- `g_kernel_heap_table` after `kheap_init` has set it.
abbrev pub kernel_heap_table : HeapTable
kernel_heap_table = record {
  entries = heap_table_address;
  total = kernel_heap_size_bytes / block_size;
}

-- The result of `heap_create`, `g_kernel_heap` and the memory. The argument is the value of
-- `g_kernel_heap` before the call.
pub kheap_init : Ram → Heap → ℕ × Heap × Ram
kheap_init m g_kernel_heap =
    heap_create m g_kernel_heap kernel_heap_start_address
      (kernel_heap_start_address + kernel_heap_size_bytes) kernel_heap_table

unfoldable pub kmalloc : Ram → Heap → ℕ → ℕ × Ram
kmalloc m g_kernel_heap size = Heap.malloc m g_kernel_heap size

unfoldable pub kzalloc : Ram → Heap → ℕ → ℕ × Ram
kzalloc m g_kernel_heap size =
    let (ptr, m') = kmalloc m g_kernel_heap size in
    if ptr == null then (ptr, m') else (ptr, memset m' ptr 0 size)

unfoldable pub kfree : Ram → Heap → ℕ → Ram
kfree m g_kernel_heap ptr = Heap.free m g_kernel_heap ptr
