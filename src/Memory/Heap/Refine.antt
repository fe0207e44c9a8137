-- ===== src/Memory/Heap/Refine.antt =====
-- `malloc` and `free` of src/kernel/arch/x86/memory/heap.c on the chunks of a table.
use larva_os.Base.{
  ℕ, suc, ◌+◌, ◌-◌, ◌*◌, ◌/◌, ◌^◌, ◌≤◌, ◌<◌, ◌≡◌, refl, ◌⊎◌, inl, inr, List, [], ◌∷◌, ◌++◌, arith,
  Ram, null, at, subst, sym, ap, is_neg, false,
}
use larva_os.Memory.Heap.{
  Heap, block_size, malloc_blocks, mark_blocks_taken, get_free_blocks,
  get_physical_address_from_block_number, get_block_number_from_physical_address,
  align_value_to_upper,
}
use larva_os.Memory.Heap.Layout.{
  Chunk, run, blocks, gaps, Layout, blocks-append, blocks-gaps, Layout-replace, Layout-at,
}
use larva_os.Memory.Heap.Search.{FreeRun, get_free_blocks_first_fit}
use larva_os.Memory.Heap.Split.{Split, split}
use larva_os.Memory.Heap.Marks.{Taken, mark_blocks_taken-Taken}

-- The table lies below the blocks, and the blocks below the end of the address space; there are at
-- most 2 ^ 31 bytes of them, as `(int)(address - start)` wants.
pub record IsPlaced (h : Heap) : Type 0 where
  pub table_below : h.table.entries + h.table.total ≤ h.start_address
  pub blocks_fit : h.start_address + h.table.total * block_size ≤ 2 ^ 32
  pub signed : h.table.total * block_size ≤ 2 ^ 31
  pub not_null : 0 < h.start_address

-- The table of `h` shows the chunks `cs`, and they are all of its blocks.
pub record Shows (m : Ram) (h : Heap) (cs : List Chunk) : Type 0 where
  pub layout : Layout m h.table.entries 0 cs
  pub count : blocks cs ≡ h.table.total

abbrev pub block_address : Heap → ℕ → ℕ
block_address h b = h.start_address + b * block_size

-- The blocks that a request of `size` bytes takes.
abbrev pub blocks_for : ℕ → ℕ
blocks_for size = (size + 4095) / block_size

pub align_blocks :
    (size : ℕ)
    → size ≤ 2 ^ 32 - block_size
    → align_value_to_upper size / block_size ≡ blocks_for size
unfolding align_value_to_upper
align_blocks size h = ground arith

module _ (m : Ram) (h : Heap) (placed : IsPlaced h) where
  address_of_block :
      (b : ℕ) → b < h.table.total → get_physical_address_from_block_number h b ≡ block_address h b
  unfolding get_physical_address_from_block_number
  address_of_block b p = ground arith

  pub block_of_address :
      (b : ℕ) → b < h.table.total → get_block_number_from_physical_address h (block_address h b) ≡ b
  unfolding get_block_number_from_physical_address
  block_of_address b p = ground arith

  abbrev e : ℕ
  e = h.table.entries

  -- What `malloc_blocks` does for `n + 1` blocks: the chunks before and after, and where no other
  -- byte changes.
  pub record Allocated (cs : List Chunk) (n : ℕ) (out : ℕ × Ram) : Type 0 where
    pub pre : List Chunk
    pub post : List Chunk
    pub before : cs ≡ pre ++ (gaps (suc n) ++ post)
    pub first : (b : ℕ) → b < blocks pre → ¬ FreeRun m e b (suc n)
    pub address : out.0 ≡ block_address h (blocks pre)
    pub after : Shows out.1 h (pre ++ (run n ∷ post))
    pub frame : (q : ℕ) → (q < e + blocks pre) ⊎ (e + blocks pre + n < q) → out.1 q ≡ m q

  pub record Refused (cs : List Chunk) (n : ℕ) (out : ℕ × Ram) : Type 0 where
    pub nothing : out ≡ (null, m)
    pub full : (b : ℕ) → b + n ≤ blocks cs → ¬ FreeRun m e b n

  positive : (g : ℕ) → g < 2 ^ 31 → is_neg g ≡ false
  positive g p = ground arith

  small : h.table.total < 2 ^ 31
  small = omega (arith, placed.signed)

  top : e + h.table.total ≤ 2 ^ 32
  top = omega (arith, placed.table_below, placed.blocks_fit)

  -- The blocks of a layout that has `mid` in it.
  pub blocks_of :
      (pre mid post : List Chunk)
      → blocks (pre ++ (mid ++ post)) ≡ blocks pre + blocks mid + blocks post
  blocks_of pre mid post = omega (arith, blocks-append pre (mid ++ post), blocks-append mid post)

  Taken-Allocated :
      (cs : List Chunk) (n g : ℕ) (out : ℕ × Ram)
      → Shows m h cs
      → Split cs g (suc n)
      → g + suc n ≤ h.table.total
      → ((b : ℕ) → b < g → ¬ FreeRun m e b (suc n))
      → Taken m h g n out
      → Allocated cs n (block_address h g, out.1)
  Taken-Allocated cs n g out shows s room none_before t = record {
    pre = s.pre;
    post = s.post;
    before = s.whole;
    first = λ b p. none_before b (omega (arith, s.offset));
    address = ap (block_address h) (sym s.offset);
    after = record {
      layout =
          Layout-replace m out.1 e s.pre (gaps (suc n)) (run n ∷ []) s.post
            (omega (arith, blocks-gaps n)) (subst (Layout m e 0) s.whole shows.layout)
            (Layout-at out.1 e (run n ∷ []) (sym s.offset) (t.first, t.tail, tt))
            (λ k p q. t.frame (at e k) (omega (arith, s.offset, top)))
            (λ k p q. t.frame (at e k) (omega (arith, s.offset, top, total, blocks-gaps n)));
      count = omega (arith, total, blocks_of s.pre (run n ∷ []) s.post);
    };
    frame = λ q o. t.frame q (omega (arith, s.offset));
  }
    where
      total : blocks s.pre + suc n + blocks s.post ≡ h.table.total
      total = omega (
        arith,
        ap blocks s.whole,
        shows.count,
        blocks_of s.pre (gaps (suc n)) s.post,
        blocks-gaps n,
      )

  -- An allocation of `n + 1` blocks takes the first run of that many gaps, or there is none and
  -- nothing changes.
  pub malloc_blocks_refines :
      (cs : List Chunk) (n : ℕ)
      → Shows m h cs
      → suc n < 2 ^ 32
      → Allocated cs n (malloc_blocks m h (suc n)) ⊎ Refused cs (suc n) (malloc_blocks m h (suc n))
  unfolding malloc_blocks
  malloc_blocks_refines cs n shows fits =
      elim (get_free_blocks_first_fit m h (suc n) (omega arith) fits small) [
        | inl (room, free_run, first) ↦
            let g = get_free_blocks m h (suc n) in
            rw (positive g (omega (arith, small)), address_of_block g (omega arith))
              (inl (
                Taken-Allocated cs n g (mark_blocks_taken m h g (suc n)) shows
                  (split m e cs 0 g (suc n) (omega arith) shows.layout
                    (subst (λ k. FreeRun m e k (suc n)) (omega arith) free_run)
                    (omega (arith, shows.count)))
                  room first (mark_blocks_taken-Taken m h g n room small top)))
        | inr (failed, none_free) ↦ rw failed (
            inr (record { nothing = refl; full = λ b p. none_free b (omega (arith, shows.count)) }))
      ]
