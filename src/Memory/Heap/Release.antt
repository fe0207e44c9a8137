-- ===== src/Memory/Heap/Release.antt =====
-- `free` of src/kernel/arch/x86/memory/heap.c on the chunks of a table.
use larva_os.Base.{
  ℕ, suc, ◌+◌, ◌^◌, ◌≤◌, ◌<◌, ◌≡◌, ◌≢◌, ◌⊎◌, List, [], ◌∷◌, ◌++◌, arith, Ram, at, ◌==◌,
  if◌then◌else◌, ◌∙◌, bit_and,
}
use larva_os.Memory.Heap.{Heap, free, is_first}
use larva_os.Memory.Heap.Layout.{
  Chunk, run, blocks, gaps, Tail, Layout-split, Layout-gaps, Layout-replace, Layout-at, blocks-gaps,
}
use larva_os.Memory.Heap.Refine.{IsPlaced, Shows, block_address, block_of_address, blocks_of}
use larva_os.Memory.Heap.Clear.{mark_blocks_free-first, Leads, cleared}

module _ (m : Ram) (h : Heap) (placed : IsPlaced h) where
  abbrev e : ℕ
  e = h.table.entries

  -- The allocation of `n + 1` blocks at block `b` shows in the table.
  abbrev pub Holds : ℕ → ℕ → Type 0
  Holds b n = (m (at e b) ≡ (if n == 0 then 0x41 else 0xc1)) × Tail m e (b + 1) n

  leads : (b n : ℕ) → Holds b n → (bit_and (m (at e b)) is_first ≢ 0) × Leads e m b n
  leads b n (v, t) = (rw v (ground arith), (rw v (ground arith), t))

  pub free-cleared :
      (b n : ℕ)
      → b + n < h.table.total
      → Holds b n
      → (q : ℕ) → free m h (block_address h b) q ≡ cleared e m b n q
  unfolding free
  free-cleared b n room holds q =
      let (first, l) = leads b n holds in
      rw (block_of_address m h placed b (omega arith)) (
        mark_blocks_free-first m h b n room (omega (arith, placed.table_below, placed.blocks_fit))
          first l q)

  pub Shows-Holds :
      (pre post : List Chunk) (n : ℕ) → Shows m h (pre ++ (run n ∷ post)) → Holds (blocks pre) n
  Shows-Holds pre post n shows =
      let (_, l) = Layout-split m e pre (run n ∷ post) 0 shows.layout in
      let (v, t, _) =
        Layout-at m e (run n ∷ post) {i = 0 + blocks pre} {j = blocks pre} (omega arith) l in
      (v, t)

  -- On a table that shows a list of free blocks and allocations, free at the address of the first
  -- block of one of them makes its blocks free and leaves the rest of the list; no byte but the
  -- allocation's entries changes.
  pub free_refines :
      (pre post : List Chunk) (n : ℕ)
      → Shows m h (pre ++ (run n ∷ post))
      → Shows (free m h (block_address h (blocks pre))) h (pre ++ (gaps (suc n) ++ post))
        × ((q : ℕ)
            → (q < e + blocks pre) ⊎ (e + blocks pre + n < q)
            → free m h (block_address h (blocks pre)) q ≡ m q)
  free_refines pre post n shows = (
    record {
      layout =
          Layout-replace m m' e pre (run n ∷ []) (gaps (suc n)) post (omega (arith, blocks-gaps n))
            shows.layout
            (Layout-gaps m' e (suc n) b (λ k p q. gone (at e k) ∙ ground (arith, plain k, total)))
            (λ k p q. gone (at e k) ∙ ground (arith, plain k, total))
            (λ k p q. gone (at e k) ∙ ground (arith, plain k, total, blocks-gaps n));
      count = omega (arith, total, blocks_of m h placed pre (gaps (suc n)) post, blocks-gaps n);
    },
    λ q o. gone q ∙ ground arith,
  )
    where
      b : ℕ
      b = blocks pre

      m' : Ram
      m' = free m h (block_address h b)

      total : blocks pre + suc n + blocks post ≡ h.table.total
      total = omega (arith, blocks_of m h placed pre (run n ∷ []) post, shows.count)

      in_table : e + h.table.total ≤ 2 ^ 32
      in_table = omega (arith, placed.table_below, placed.blocks_fit)

      plain : (k : ℕ) → k < h.table.total → at e k ≡ e + k
      plain k p = omega (arith, in_table)

      gone : (q : ℕ) → m' q ≡ cleared e m b n q
      gone = free-cleared b n (omega (arith, total)) (Shows-Holds pre post n shows)
