-- ===== src/Memory/Kheap/Tests.antt =====
-- The kernel heap at concrete inputs.
use larva_os.Base.{◌≡◌, refl, null}
use larva_os.Memory.Kheap.{kfree, kernel_heap_start_address}
use larva_os.Memory.Kheap.Booted.{dirty}
use larva_os.Memory.Kheap.Laws.{kernel_heap, kfree-null}

-- At 0x6e00 this memory holds 3, which has bit 6 clear.
kfree-null_example :
    kfree dirty kernel_heap null ≡ kfree dirty kernel_heap kernel_heap_start_address
kfree-null_example = kfree-null dirty refl
