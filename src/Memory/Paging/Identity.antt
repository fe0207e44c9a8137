-- ===== src/Memory/Paging/Identity.antt =====
-- That a new address space maps each page to itself, for src/kernel/arch/x86/memory/paging.c.
use larva_os.Base.{
  ℕ, suc, ◌+◌, ◌-◌, ◌*◌, ◌/◌, ◌%◌, ◌^◌, ◌≤◌, ◌<◌, ◌≡◌, ◌⊎◌, inl, inr, arith, Ram, ap, ◌∙◌, subst,
  bit_or, u32, load32, store32, load32_ext, load32-store32_self, store32_frame,
}
use larva_os.Base.Bits.{and_page}
use larva_os.Memory.Kheap.Laws.{kernel_heap}
use larva_os.Memory.Kheap.Packed.{Packed, Packed-kept, block, kzalloc_next}
use larva_os.Memory.Paging.{
  make_new_4GB_virtual_memory_address_space, make_tables, paging_get_entry_of_address,
}
use larva_os.Memory.Paging.Entries.{IsDirectory, get_aligned, table_at}
use larva_os.Memory.Paging.Space.{make_tables_lem, word}

module _ (flags entry_flags : ℕ) (small : flags < 4096) (writeable : bit_or flags 2 ≡ entry_flags)
    (entry_small : entry_flags < 4096) where
  -- The chunk at `page` and its 1024 tables, in the blocks behind that of the directory.
  record Tables (m : Ram) (b page : ℕ) : Type 0 where
    directory : load32 m page ≡ block b
    tables : (t : ℕ) → t < 1024 → load32 m (block b + 4 * t) ≡ block (b + 1 + t) + entry_flags
    words :
        (t j : ℕ)
        → t < 1024
        → j < 1024
        → load32 m (block (b + 1 + t) + 4 * j) ≡ word (u32 (t * 4194304)) flags j

  table_is :
      (m : Ram) (b page t : ℕ)
      → Tables m b page
      → b + 1026 ≤ 25600
      → t < 1024
      → table_at m page t ≡ block (b + 1 + t)
  table_is m b page t z room low =
      rw (z.directory, z.tables t low)
        (omega (
          arith,
          room,
          low,
          entry_small,
          and_page (block (b + 1 + t) + entry_flags) (omega (arith, room, low, entry_small)),
        ))

  -- Each page is mapped to itself with the flags.
  abbrev pub MapsItself : Ram → ℕ → Type 0
  MapsItself m page =
      (v : ℕ) → v < 2 ^ 32 → v % 4096 ≡ 0 → paging_get_entry_of_address m page v ≡ v + flags

  maps_itself : (m : Ram) (b page : ℕ) → Tables m b page → b + 1026 ≤ 25600 → MapsItself m page
  maps_itself m b page z room v low aligned =
      let t : v / (1024 * 4096) < 1024 = omega (arith, low) in
      let j : v % (1024 * 4096) / 4096 < 1024 = omega (arith, low) in
      get_aligned m page v aligned
      ∙ ap (λ x. load32 m (x + 4 * (v % (1024 * 4096) / 4096)))
          (table_is m b page (v / (1024 * 4096)) z room t)
      ∙ z.words (v / (1024 * 4096)) (v % (1024 * 4096) / 4096) t j
      ∙ omega (arith, low, aligned)

  directory-Tables :
      (m : Ram) (b : ℕ)
      → Tables m b (block (b + 1025))
      → b + 1026 ≤ 25600
      → IsDirectory m (block (b + 1025))
  directory-Tables m b z room =
      let page = block (b + 1025) in
      record {
        chunk_aligned = omega arith;
        directory_aligned = omega (arith, z.directory);
        chunk_apart = omega (arith, z.directory);
        table_chunk = λ i h. omega (arith, table_is m b page i z room h, h);
        table_directory = λ i h. omega (arith, table_is m b page i z room h, z.directory);
        tables_apart = λ i j h k ne.
            omega (arith, table_is m b page i z room h, table_is m b page j z room k, ne);
      }

  -- The chunk is stored behind the tables.
  space-Tables :
      (m2 m3 : Ram) (b : ℕ)
      → b + 1026 ≤ 25600
      → ((t : ℕ)
          → 0 ≤ t
          → t < 0 + 1024
          → load32 m2 (block b + 4 * t) ≡ block (suc b + (t - 0)) + entry_flags)
      → ((t j : ℕ)
          → 0 ≤ t
          → t < 0 + 1024
          → j < 1024
          → load32 m2 (block (suc b + (t - 0)) + 4 * j) ≡ word (u32 (t * 4194304)) flags j)
      → ((q : ℕ)
          → (q < 0x7e00) ⊎ (0xe200 ≤ q)
          → (q < block (suc b + 1024)) ⊎ (block (suc b + 1024) + 4 ≤ q)
          → m3 q ≡ m2 q)
      → Tables (store32 m3 (block (suc b + 1024)) (block b)) b (block (b + 1025))
  space-Tables m2 m3 b room entries words frame3 =
      let m4 = store32 m3 (block (suc b + 1024)) (block b) in
      let far : (q : ℕ) → 0xe200 ≤ q → q < block (suc b + 1024) → m4 q ≡ m2 q = λ q low high.
        store32_frame m3 (block (suc b + 1024)) (block b) q (inl high)
        ∙ frame3 q (inr low) (inl high) in
      record {
        directory =
            ap (load32 m4) (omega arith)
            ∙ load32-store32_self m3 (block (suc b + 1024)) (block b) (omega (arith, room));
        tables = λ t low.
            load32_ext m4 m2 (block b + 4 * t)
              (λ q from to. far q (omega (arith, from)) (omega (arith, to, low)))
            ∙ entries t (omega arith) (omega (arith, low))
            ∙ omega arith;
        words = λ t j low small.
            ap (λ x. load32 m4 (block x + 4 * j)) (omega arith)
            ∙ load32_ext m4 m2 (block (suc b + (t - 0)) + 4 * j)
                (λ q from to. far q (omega (arith, from)) (omega (arith, to, low, small)))
            ∙ words t j (omega arith) (omega (arith, low)) small;
      }

  -- What the call gives.
  abbrev pub MakesSpace : Ram → ℕ → ℕ × Ram → Type 0
  MakesSpace m b r =
      (m' : Ram) × (r ≡ (block (b + 1025), m'))
      × IsDirectory m' (block (b + 1025))
      × MapsItself m' (block (b + 1025))
      × Packed m' (b + 1026)
      × ((q : ℕ) → 0xe200 ≤ q → q < block b → m' q ≡ m q)

  -- On a heap whose first `b` blocks are taken and whose other blocks are free, 1026 at least,
  -- make_new_4GB_virtual_memory_address_space takes the next 1026 blocks and makes an address space
  -- in them that maps each of the 2 ^ 20 pages to itself, with the flags: the chunk, the directory
  -- and the 1024 tables are in blocks of their own. Between the table of the heap and the new
  -- blocks no byte is changed. The flags are below 4096, also with the flag for writing.
  pub make_new_space_lem :
      (m : Ram) (b : ℕ)
      → Packed m b
      → b + 1026 ≤ 25600
      → MakesSpace m b (make_new_4GB_virtual_memory_address_space m kernel_heap flags)
  unfolding make_new_4GB_virtual_memory_address_space
  make_new_space_lem m b z room =
      let (m1, e1, packed1, _, frame1) =
        kzalloc_next m b z (omega (arith, room)) 4096 (omega arith) (omega arith) in
      let made =
        make_tables_lem flags entry_flags small writeable entry_small 1024 m1 (suc b) (block b) 0
          packed1 (omega (arith, room)) (omega arith) (omega arith) (omega arith) in
      let m2 = make_tables m1 kernel_heap (block b) flags 1024 0 0 in
      let (m3, e3, packed3, _, frame3) =
        kzalloc_next m2 (suc b + 1024) made.packed (omega (arith, room)) 4 (omega arith)
          (omega arith) in
      let page : block (suc b + 1024) ≡ block (b + 1025) = omega arith in
      let m4 = store32 m3 (block (suc b + 1024)) (block b) in
      let tables = space-Tables m2 m3 b room made.entries made.words frame3 in
      rw (e1, e3)
        (
          m4,
          ap (λ p. (p, m4)) page,
          directory-Tables m4 b tables room,
          maps_itself m4 b (block (b + 1025)) tables room,
          Packed-kept m3 m4 (b + 1026)
              (λ q low high.
                store32_frame m3 (block (suc b + 1024)) (block b) q (omega (arith, high)))
              room (subst (Packed m3) (omega arith) packed3),
          λ q low high.
              store32_frame m3 (block (suc b + 1024)) (block b) q (omega (arith, high))
              ∙ frame3 q (inr low) (omega (arith, high))
              ∙ made.frame q low (omega (arith, high)) (omega (arith, high))
              ∙ frame1 q (inr low) (inl high),
        )
