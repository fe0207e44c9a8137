-- ===== src/Memory/Kheap/Booted.antt =====
-- The kernel heap right after kheap_init of src/kernel/arch/x86/memory/kheap.c, to run tests on.
use larva_os.Base.{◌%◌, Ram}
use larva_os.Memory.Heap.Layout.{gaps}
use larva_os.Memory.Heap.Refine.{Shows}
use larva_os.Memory.Kheap.{kheap_init}
use larva_os.Memory.Kheap.Laws.{kernel_heap, kheap_init_lem}

-- The memory as the firmware leaves it: any contents.
abbrev pub dirty : Ram
dirty q = q % 7

abbrev pub booted : Ram
booted = (kheap_init dirty kernel_heap).2

pub booted-Shows : Shows booted kernel_heap (gaps 25600)
booted-Shows = (kheap_init_lem dirty kernel_heap).2
