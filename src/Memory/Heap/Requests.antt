-- ===== src/Memory/Heap/Requests.antt =====
-- `malloc` of src/kernel/arch/x86/memory/heap.c by the size that is asked for.
use larva_os.Base.{
  ℕ, zero, suc, ◌+◌, ◌-◌, ◌/◌, ◌^◌, ◌≤◌, ◌<◌, ◌≡◌, refl, ◌⊎◌, inl, inr, List, arith, Ram, neg32,
  enomem, null, at, u32, ◌==◌, subst, Bool-cases, ==_iff, ==_false,
}
use larva_os.Memory.Heap.{
  Heap, block_size, malloc, malloc_blocks, get_free_blocks, scan, align_value_to_upper,
  block_entry_is_free,
}
use larva_os.Memory.Heap.Layout.{Chunk}
use larva_os.Memory.Heap.Refine.{
  IsPlaced, Shows, Allocated, Refused, blocks_for, align_blocks, malloc_blocks_refines,
}

-- A request of no block ends with the counter at 0 only where the search has no candidate.
scan_none :
    (m : Ram) (e left i count block : ℕ)
    → count + left < 2 ^ 32
    → (count ≡ 0 → block ≡ neg32 enomem)
    → (scan m e 0 left i count block).0 ≡ 0
    → (scan m e 0 left i count block).1 ≡ neg32 enomem
unfolding scan
scan_none m e zero i count block h k = k
scan_none m e (suc left) i count block h k =
    let same : u32 (count + 1) ≡ count + 1 = omega arith in
    elim (Bool-cases (block_entry_is_free (m (at e i)))) [
      | inl f ↦
          rw (f, same, ==_false (count + 1) 0 (λ p. omega arith))
            (scan_none m e left (i + 1) (count + 1) _ (omega arith) (λ p. absurd (omega arith)))
      | inr t ↦ rw t (scan_none m e left (i + 1) 0 (neg32 enomem) (omega arith) (λ p. refl))
    ]

get_free_blocks_none :
    (m : Ram) (h : Heap) → h.table.total < 2 ^ 31 → get_free_blocks m h 0 ≡ neg32 enomem
unfolding get_free_blocks
get_free_blocks_none m h small = elim (Bool-cases (final.0 == 0)) [
  | inl z ↦ rw z (
      scan_none m h.table.entries h.table.total 0 0 (neg32 enomem) (omega arith) (λ p. refl)
        ((==_iff _ _).0 z))
  | inr ne ↦ rw ne
]
  where
    final : ℕ × ℕ
    final = scan m h.table.entries 0 h.table.total 0 0 (neg32 enomem)

module _ (m : Ram) (h : Heap) (placed : IsPlaced h) where
  -- On a table that shows a list of free blocks and allocations, a request of between 1 and
  -- 2 ^ 32 - 4096 bytes takes the first run of free blocks that has room for it and returns the
  -- address of the run's first block; if there is no such run it returns NULL, and the memory is
  -- unchanged.
  pub malloc_refines :
      (cs : List Chunk) (size : ℕ)
      → Shows m h cs
      → 0 < size
      → size ≤ 2 ^ 32 - block_size
      → Allocated m h placed cs (blocks_for size - 1) (malloc m h size)
        ⊎ Refused m h placed cs (blocks_for size) (malloc m h size)
  unfolding malloc
  malloc_refines cs size shows pos fits =
      let whole : suc (blocks_for size - 1) ≡ blocks_for size = omega arith in
      rw (align_blocks size fits) (
        subst
          (λ n.
            Allocated m h placed cs (blocks_for size - 1) (malloc_blocks m h n)
            ⊎ Refused m h placed cs n (malloc_blocks m h n))
          whole (malloc_blocks_refines m h placed cs (blocks_for size - 1) shows (omega arith)))

  -- A request of no bytes returns NULL and changes nothing; so does one of more than 2 ^ 32 - 4096
  -- bytes, which the rounding wraps to none.
  pub malloc_degenerate :
      (size : ℕ)
      → size < 2 ^ 32
      → (size ≡ 0) ⊎ (2 ^ 32 - block_size < size)
      → malloc m h size ≡ (null, m)
  unfolding malloc malloc_blocks
  malloc_degenerate size fits odd =
      rw (nothing, get_free_blocks_none m h (omega (arith, placed.signed)))
    where
      nothing : align_value_to_upper size / block_size ≡ 0
      nothing = unfold align_value_to_upper in ground arith
