-- ===== src/Memory/Heap/Small.antt =====
-- A small heap to run the clients of src/kernel/arch/x86/memory/heap.c on.
use larva_os.Base.{◌≡◌, refl, Ram}
use larva_os.Memory.Heap.{
  Heap, align_value_to_upper, get_free_blocks, get_physical_address_from_block_number, malloc,
  malloc_blocks,
}

-- Four blocks from 4096 on, its table at 16.
abbrev pub small_heap : Heap
small_heap = record { table = record { entries = 16; total = 4 }; start_address = 4096 }

abbrev pub zeros : Ram
zeros q = 0

pub malloc_first : (malloc zeros small_heap 16).0 ≡ 4096
unfolding malloc malloc_blocks get_free_blocks get_physical_address_from_block_number
    align_value_to_upper
malloc_first = refl
