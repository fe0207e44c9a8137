-- ===== src/Memory/Kheap/Laws.antt =====
-- What the kernel's heap promises its callers, for src/kernel/arch/x86/memory/kheap.c.
use larva_os.Base.{
  ℕ, suc, ◌+◌, ◌-◌, ◌%◌, ◌≤◌, ◌<◌, ◌≡◌, refl, ◌≢◌, ◌⊎◌, inl, inr, List, [], ◌∷◌, arith, Ram, null,
  ◌==◌, bit_and, ◌∙◌, ==_iff, Bool-cases,
}
use larva_os.Libc.Memory.{memset_lem}
use larva_os.Memory.Heap
use larva_os.Memory.Heap.{
  Heap, heap_create, heap_validate_alignment, heap_validate_table, block_size, is_first, free,
  mark_blocks_free, get_block_number_from_physical_address,
}
use larva_os.Memory.Heap.Create.{heap_create_free}
use larva_os.Memory.Heap.Layout.{Chunk, run, blocks, gaps}
use larva_os.Memory.Heap.Refine.{IsPlaced, Shows, Allocated, blocks_for, blocks_of}
use larva_os.Memory.Heap.Requests.{malloc_refines}
use larva_os.Memory.Heap.RoundTrip.{free_not_first}
use larva_os.Memory.Kheap.{
  kheap_init, kmalloc, kzalloc, kfree, kernel_heap_table, kernel_heap_start_address,
  kernel_heap_size_bytes, heap_table_address,
}

-- The heap that `kheap_init` makes.
abbrev pub kernel_heap : Heap
kernel_heap = record { table = kernel_heap_table; start_address = kernel_heap_start_address }

pub kernel_heap-IsPlaced : IsPlaced kernel_heap
kernel_heap-IsPlaced = omega arith

-- Initialisation succeeds; all 25600 blocks are free, and only the table is written.
pub kheap_init_lem :
    (m : Ram) (before : Heap)
    → ((kheap_init m before).0 ≡ 0)
      × ((kheap_init m before).1 ≡ kernel_heap)
      × Shows (kheap_init m before).2 kernel_heap (gaps 25600)
      × ((q : ℕ) → (q < 0x7e00) ⊎ (0xe200 ≤ q) → (kheap_init m before).2 q ≡ m q)
unfolding kheap_init
kheap_init_lem m before =
    heap_create_free m before kernel_heap_start_address
      (kernel_heap_start_address + kernel_heap_size_bytes) kernel_heap_table refl refl refl
      (omega arith)

-- NULL, or a block that lies with `size` bytes in the kernel's heap; and of memory only entries of
-- the table differ.
abbrev pub InHeap : Ram → ℕ → ℕ × Ram → Type 0
InHeap m size (p, m') =
    ((p ≡ null)
      ⊎ ((kernel_heap_start_address ≤ p)
          × (p % 4096 ≡ 0)
          × (p + size ≤ kernel_heap_start_address + kernel_heap_size_bytes)))
    × ((q : ℕ) → (q < 0x7e00) ⊎ (0xe200 ≤ q) → m' q ≡ m q)

module _ (m : Ram) (cs : List Chunk) (shows : Shows m kernel_heap cs) where
  Allocated-InHeap :
      (size : ℕ) (out : ℕ × Ram)
      → 0 < size
      → Allocated m kernel_heap kernel_heap-IsPlaced cs (blocks_for size - 1) out
      → InHeap m size out
  Allocated-InHeap size out pos a = (
    inr (omega (arith, a.address), omega (arith, a.address), omega (arith, a.address, room)),
    λ q o. a.frame q (omega (arith, room)),
  )
    where
      room : blocks a.pre + suc (blocks_for size - 1) + blocks a.post ≡ 25600
      room = omega (
        arith,
        a.after.count,
        blocks_of out.1 kernel_heap kernel_heap-IsPlaced a.pre (run (blocks_for size - 1) ∷ [])
            a.post,
      )

  -- On a table that shows a list, for a request of at least one byte and at most the heap's size,
  -- what kmalloc returns is NULL or the address of a block that lies, with all the bytes that were
  -- asked for, in the kernel's heap; and only entries of the table are written.
  pub kmalloc-InHeap :
      (size : ℕ)
      → 0 < size
      → size ≤ kernel_heap_size_bytes
      → InHeap m size (kmalloc m kernel_heap size)
  unfolding kmalloc
  kmalloc-InHeap size pos fits =
      elim (malloc_refines m kernel_heap kernel_heap-IsPlaced cs size shows pos (omega arith)) [
        | inl a ↦ Allocated-InHeap size (Heap.malloc m kernel_heap size) pos a
        | inr r ↦ rw r.nothing (inl refl, λ q o. refl)
      ]

  -- On such a table and for such a request kzalloc returns what kmalloc does, its bytes are zeros
  -- unless it is NULL, and outside them only entries of the table are written.
  pub kzalloc_zeroed :
      (size : ℕ)
      → 0 < size
      → size ≤ kernel_heap_size_bytes
      → let (p, m') = kzalloc m kernel_heap size in
        (p ≡ (kmalloc m kernel_heap size).0)
        × (p ≢ null → (q : ℕ) → p ≤ q → q < p + size → m' q ≡ 0)
        × ((q : ℕ) → (q < 0x7e00) ⊎ (0xe200 ≤ q) → (q < p) ⊎ (p + size ≤ q) → m' q ≡ m q)
  unfolding kzalloc
  kzalloc_zeroed size pos fits =
      let (_, same) = kmalloc-InHeap size pos fits in
      let p = (kmalloc m kernel_heap size).0 in
      elim (Bool-cases (p == null)) [
        | inl e ↦ rw e (refl, λ n. absurd (n ((==_iff _ _).0 e)), λ q o _. same q o)
        | inr e ↦ rw e (
          refl,
          λ n q a b. memset_lem (kmalloc m kernel_heap size).1 p 0 size q ∙ ground arith,
          λ q o w. memset_lem (kmalloc m kernel_heap size).1 p 0 size q ∙ (ground arith ∙ same q o),
        )
      ]

-- Where the byte 4096 below the table has bit 6 clear, kfree(NULL) does what kfree of the start of
-- the heap does.
pub kfree-null :
    (m : Ram)
    → bit_and (m (heap_table_address - 4096)) is_first ≡ 0
    → kfree m kernel_heap null ≡ kfree m kernel_heap kernel_heap_start_address
unfolding kfree get_block_number_from_physical_address
kfree-null m h = free_not_first m kernel_heap null kernel_heap_start_address h refl
