-- ===== src/Path/Tests.antt =====
-- A path taken apart, for src/kernel/arch/x86/fs/path_parser.c.
use larva_os.Base.{Ram, get_or, [], ◌∷◌}
use larva_os.Memory.Kheap.{kheap_init}
use larva_os.Memory.Kheap.Laws.{kernel_heap}

-- `/a/b` at 1, before the kernel makes its heap.
abbrev named : Ram
named q = get_or (0 ∷ b'/' ∷ b'a' ∷ b'/' ∷ b'b' ∷ 0 ∷ []) q 0

abbrev started : Ram
started = (kheap_init named kernel_heap).2
