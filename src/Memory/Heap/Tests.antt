-- ===== src/Memory/Heap/Tests.antt =====
-- Runs of the heap on concrete tables, and its theorems at concrete inputs.
use larva_os.Base.{
  ℕ, ◌+◌, ◌-◌, ◌≤◌, ◌<◌, ◌≡◌, refl, ◌≢◌, ◌⊎◌, [], ◌∷◌, arith, Ram, null, get_or, ◌%◌, neg32, einval,
  enomem,
}
use larva_os.Memory.Heap.{
  Heap, HeapTable, malloc, free, malloc_blocks, get_free_blocks,
  get_physical_address_from_block_number, mark_blocks_taken, mark_blocks_free,
  get_block_number_from_physical_address, align_value_to_upper, heap_create,
}
use larva_os.Memory.Heap.Layout.{gap, run, gaps}
use larva_os.Memory.Heap.Search.{FreeRun, get_free_blocks_first_fit}
use larva_os.Memory.Heap.Refine.{IsPlaced, Shows, Allocated, Refused}
use larva_os.Memory.Heap.Requests.{malloc_refines}
use larva_os.Memory.Heap.Release.{free_refines}
use larva_os.Memory.Heap.RoundTrip.{free-malloc, free-interior_first}
use larva_os.Memory.Heap.Create.{heap_create_lem}

-- A heap of three blocks from 4096 on, its table at 16.
abbrev table : HeapTable
table = record { entries = 16; total = 3 }

abbrev heap : Heap
heap = record { table = table; start_address = 4096 }

abbrev zeros : Ram
zeros q = 0

-- One block taken, then an allocation of two.
abbrev filled : Ram
filled q = get_or (0x41 ∷ 0xc1 ∷ 0x01 ∷ []) (q - 16) 0

heap-IsPlaced : IsPlaced heap
heap-IsPlaced = omega arith

zeros-Shows : Shows zeros heap (gaps 3)
zeros-Shows = record { layout = (refl, (refl, (refl, tt))); count = refl }

filled-Shows : Shows filled heap (run 0 ∷ run 1 ∷ [])
filled-Shows = record { layout = (refl, tt, (refl, (refl, tt), tt)); count = refl }

malloc_two_blocks :
    let (p, m) = malloc zeros heap 5000 in
    (p ≡ 4096) × (m 16 ≡ 0xc1) × (m 17 ≡ 0x01) × (m 18 ≡ 0x00)
unfolding malloc malloc_blocks get_free_blocks get_physical_address_from_block_number
    mark_blocks_taken align_value_to_upper
malloc_two_blocks = (refl, refl, refl, refl)

malloc_no_room : malloc filled heap 1 ≡ (null, filled)
unfolding malloc malloc_blocks get_free_blocks align_value_to_upper
malloc_no_room = refl

free_second : let m = free filled heap 8192 in (m 16 ≡ 0x41) × (m 17 ≡ 0x00) × (m 18 ≡ 0x00)
unfolding free mark_blocks_free get_block_number_from_physical_address
free_second = (refl, refl, refl)

get_free_blocks_first_fit_example :
    ((get_free_blocks zeros heap 2 + 2 ≤ 3)
      × FreeRun zeros 16 (get_free_blocks zeros heap 2) 2
      × ((b : ℕ) → b < get_free_blocks zeros heap 2 → ¬ FreeRun zeros 16 b 2))
    ⊎ ((get_free_blocks zeros heap 2 ≡ neg32 enomem)
        × ((b : ℕ) → b + 2 ≤ 3 → ¬ FreeRun zeros 16 b 2))
get_free_blocks_first_fit_example =
    get_free_blocks_first_fit zeros heap 2 (omega arith) (omega arith) (omega arith)

malloc_refines_example :
    Allocated zeros heap heap-IsPlaced (gaps 3) 1 (malloc zeros heap 5000)
    ⊎ Refused zeros heap heap-IsPlaced (gaps 3) 2 (malloc zeros heap 5000)
malloc_refines_example =
    malloc_refines zeros heap heap-IsPlaced (gaps 3) 5000 zeros-Shows (omega arith) (omega arith)

free_refines_example :
    Shows (free filled heap 8192) heap (run 0 ∷ gaps 2)
    × ((q : ℕ) → (q < 17) ⊎ (18 < q) → free filled heap 8192 q ≡ filled q)
free_refines_example = free_refines filled heap heap-IsPlaced (run 0 ∷ []) [] 1 filled-Shows

given : (malloc zeros heap 5000).0 ≢ null
unfolding malloc malloc_blocks get_free_blocks get_physical_address_from_block_number
    mark_blocks_taken align_value_to_upper
given e = omega (arith, e)

free-malloc_example : free (malloc zeros heap 5000).1 heap (malloc zeros heap 5000).0 ≡ zeros
free-malloc_example =
    free-malloc zeros heap heap-IsPlaced (gaps 3) 5000 zeros-Shows (omega arith) (omega arith) given

-- Freeing the third block, which belongs to the second allocation, frees the first one.
free-interior_first_example : Shows (free filled heap 12288) heap (gap ∷ run 1 ∷ [])
free-interior_first_example =
    free-interior_first filled heap heap-IsPlaced 0 1 1 [] [] filled-Shows (omega arith)
      (omega arith)

heap_create_lem_example :
    let out = heap_create filled heap 4096 16384 table in
    (((4096 % 4096 ≡ 0) × (16384 % 4096 ≡ 0) × (table.total ≡ 3))
      × (out.0 ≡ 0)
      × (out.1 ≡ heap)
      × Shows out.2 heap (gaps 3)
      × ((q : ℕ) → (q < 16) ⊎ (19 ≤ q) → out.2 q ≡ filled q))
    ⊎ (((4096 % 4096 ≢ 0) ⊎ (16384 % 4096 ≢ 0) ⊎ (table.total ≢ 3))
        × (out.0 ≡ neg32 einval)
        × (out.2 ≡ filled))
heap_create_lem_example = heap_create_lem filled heap 4096 16384 table (omega arith)
