-- ===== src/Memory/Heap/Create.antt =====
-- `heap_create` of src/kernel/arch/x86/memory/heap.c.
use larva_os.Base.{
  ℕ, ◌+◌, ◌*◌, ◌/◌, ◌%◌, ◌^◌, ◌≤◌, ◌<◌, ◌≡◌, refl, ◌≢◌, ◌⊎◌, inl, inr, arith, Ram, at, neg32,
  einval, sub32, u32, if◌then◌else◌, ==_false, ==_iff, ltb, leb, ◌&&◌, ◌∙◌,
}
use native.Mathlib.Decide.{ℕ_discrete}
use larva_os.Libc.Memory.{memset, memset_lem}
use larva_os.Memory.Heap.{Heap, HeapTable, heap_create, block_size, entry_free}
use larva_os.Memory.Heap.Layout.{gaps, Layout-gaps, blocks-gaps}
use larva_os.Memory.Heap.Refine.{Shows}

module _ (m : Ram) (heap : Heap) (start end : ℕ) (table : HeapTable) where
  -- Start or end off a block boundary: -EINVAL, and nothing is written.
  heap_create_unaligned :
      (start % block_size ≢ 0) ⊎ (end % block_size ≢ 0)
      → heap_create m heap start end table ≡ (neg32 einval, heap, m)
  unfolding heap_create
  heap_create_unaligned h = ground arith

  abbrev pub made : Heap
  made = record { table = table; start_address = start }

  -- A table for another number of blocks: -EINVAL. The heap has been set by then, the table not.
  heap_create_mismatch :
      start % block_size ≡ 0
      → end % block_size ≡ 0
      → table.total ≢ sub32 end start / block_size
      → heap_create m heap start end table ≡ (neg32 einval, made, m)
  unfolding heap_create
  heap_create_mismatch p q h = rw ((==_iff _ _).1 p, (==_iff _ _).1 q, ==_false _ _ h)

  heap_create_fits :
      start % block_size ≡ 0
      → end % block_size ≡ 0
      → table.total ≡ sub32 end start / block_size
      → heap_create m heap start end table
        ≡ (0, made, memset m table.entries entry_free (u32 (1 * table.total)))
  unfolding heap_create
  heap_create_fits p q h = rw ((==_iff _ _).1 p, (==_iff _ _).1 q, (==_iff _ _).1 h)

  -- Otherwise the call succeeds: every block is free, and only the table is written.
  pub heap_create_free :
      start % block_size ≡ 0
      → end % block_size ≡ 0
      → table.total ≡ sub32 end start / block_size
      → table.entries + table.total ≤ 2 ^ 32
      → let out = heap_create m heap start end table in
        (out.0 ≡ 0)
        × (out.1 ≡ made)
        × Shows out.2 made (gaps table.total)
        × ((q : ℕ) → (q < table.entries) ⊎ (table.entries + table.total ≤ q) → out.2 q ≡ m q)
  heap_create_free p q h fits = rw (heap_create_fits p q h) (
    refl,
    refl,
    record {
      layout =
          Layout-gaps (memset m table.entries entry_free (u32 (1 * table.total))) table.entries
            table.total 0 (λ k a b. stored (at table.entries k) ∙ ground arith);
      count = blocks-gaps table.total;
    },
    λ k o. stored k ∙ ground arith,
  )
    where
      stored :
          (k : ℕ)
          → memset m table.entries entry_free (u32 (1 * table.total)) k ≡ (
              if leb table.entries k && ltb k (table.entries + u32 (1 * table.total))
              then 0
              else m k)
      stored k = memset_lem m table.entries entry_free (u32 (1 * table.total)) k

  -- The result is 0 exactly if both ends are on a block boundary and the table has an entry for
  -- each block between them; else it is -EINVAL and the memory is unchanged. On success every
  -- block is free and only the table's bytes are written.
  pub heap_create_lem :
      table.entries + table.total ≤ 2 ^ 32
      → let out = heap_create m heap start end table in
        (((start % block_size ≡ 0)
            × (end % block_size ≡ 0)
            × (table.total ≡ sub32 end start / block_size))
          × (out.0 ≡ 0)
          × (out.1 ≡ made)
          × Shows out.2 made (gaps table.total)
          × ((q : ℕ) → (q < table.entries) ⊎ (table.entries + table.total ≤ q) → out.2 q ≡ m q))
        ⊎ (((start % block_size ≢ 0)
              ⊎ (end % block_size ≢ 0)
              ⊎ (table.total ≢ sub32 end start / block_size))
            × (out.0 ≡ neg32 einval)
            × (out.2 ≡ m))
  heap_create_lem fits = elim (dec_eq (start % block_size) 0) [
    | inr p ↦ inr (inl p, rw (heap_create_unaligned (inl p)), rw (heap_create_unaligned (inl p)))
    | inl p ↦ elim (dec_eq (end % block_size) 0) [
      | inr q ↦
          inr (inr (inl q), rw (heap_create_unaligned (inr q)), rw (heap_create_unaligned (inr q)))
      | inl q ↦ elim (dec_eq table.total (sub32 end start / block_size)) [
        | inr h ↦
            inr (inr (inr h), rw (heap_create_mismatch p q h), rw (heap_create_mismatch p q h))
        | inl h ↦ let (a, b, c, d) = heap_create_free p q h fits in inl ((p, q, h), a, b, c, d)
      ]
    ]
  ]
    where
      dec_eq : (a b : ℕ) → (a ≡ b) ⊎ (a ≢ b)
      dec_eq a b = elim (ℕ_discrete a b) [ yes e ↦ inl e | no e ↦ inr e ]
