-- ===== src/Memory/Heap/RoundTrip.antt =====
-- `free` after `malloc`, and `free` at an address inside an allocation, for
-- src/kernel/arch/x86/memory/heap.c.
use larva_os.Base.{
  ℕ, zero, suc, ◌+◌, ◌-◌, ◌^◌, ◌≤◌, ◌<◌, ◌≡◌, ◌≢◌, inl, inr, List, [], ◌∷◌, ◌++◌, arith, Ram, at,
  null, ◌==◌, ◌∙◌, subst, sym, bit_and, leb, ◌&&◌, fun_ext, true, Bool-cases,
}
use larva_os.Memory.Heap.{
  Heap, block_size, malloc, free, is_first, get_block_number_from_physical_address,
}
use larva_os.Memory.Heap.Layout.{
  Chunk, run, blocks, gaps, Tail, Layout, Layout-split, Layout-at, gaps-zero,
}
use larva_os.Memory.Heap.Refine.{
  IsPlaced, Shows, Allocated, block_address, blocks_for, blocks_of, block_of_address,
}
use larva_os.Memory.Heap.Requests.{malloc_refines}
use larva_os.Memory.Heap.Release.{free-cleared, free_refines, Shows-Holds}
use larva_os.Memory.Heap.Clear.{cleared, mark_blocks_free-interior}

-- `free` at a pointer whose entry is not that of a first block acts as at block 0.
pub free_not_first :
    (m : Ram) (h : Heap) (p q : ℕ)
    → bit_and (m (at h.table.entries (get_block_number_from_physical_address h p))) is_first ≡ 0
    → get_block_number_from_physical_address h q ≡ 0
    → free m h p ≡ free m h q
unfolding free
free_not_first m h p q other zeroth =
    rw zeroth (mark_blocks_free-interior m h (get_block_number_from_physical_address h p) other)

module _ (m : Ram) (h : Heap) (placed : IsPlaced h) where
  abbrev e : ℕ
  e = h.table.entries

  -- Clearing the entries of a new allocation gives the old memory back.
  Allocated-undo :
      (cs : List Chunk) (n : ℕ) (out : ℕ × Ram)
      → Shows m h cs
      → Allocated m h placed cs n out
      → (q : ℕ) → free out.1 h out.0 q ≡ m q
  Allocated-undo cs n out shows a q = rw a.address (
      free-cleared out.1 h placed b n (omega (arith, room))
        (Shows-Holds out.1 h placed a.pre a.post n a.after) q
      ∙ restored)
    where
      b : ℕ
      b = blocks a.pre

      room : b + suc n + blocks a.post ≡ h.table.total
      room = omega (arith, a.after.count, blocks_of out.1 h placed a.pre (run n ∷ []) a.post)

      was_free : (k : ℕ) → b ≤ k → k < b + suc n → m (at e k) ≡ 0x00
      was_free =
          let (_, rest) =
            Layout-split m e a.pre (gaps (suc n) ++ a.post) 0
              (subst (Layout m e 0) a.before shows.layout) in
          let (g, _) = Layout-split m e (gaps (suc n)) a.post (0 + b) rest in
          gaps-zero m e (suc n) b (Layout-at m e (gaps (suc n)) (omega arith) g)

      restored : cleared e out.1 b n q ≡ m q
      restored = elim (Bool-cases (leb (e + b) q && leb q (e + b + n))) [
        | inl inside ↦ rw inside (sym (ground (arith, was_free (q - e), plain)))
        | inr outside ↦ rw outside (a.frame q (ground arith))
      ]
        where
          plain : leb (e + b) q && leb q (e + b + n) ≡ true → at e (q - e) ≡ q
          plain inside = ground (arith, placed.table_below, placed.blocks_fit, room)

  -- On a table that shows a list of free blocks and allocations, where malloc of between 1 and
  -- 2 ^ 32 - 4096 bytes does not return NULL, free of its result leaves the memory as it was before
  -- both calls.
  pub free-malloc :
      (cs : List Chunk) (size : ℕ)
      → Shows m h cs
      → 0 < size
      → size ≤ 2 ^ 32 - block_size
      → (malloc m h size).0 ≢ null
      → free (malloc m h size).1 h (malloc m h size).0 ≡ m
  free-malloc cs size shows pos fits given =
      elim (malloc_refines m h placed cs size shows pos fits) [
        | inl a ↦ fun_ext (Allocated-undo cs (blocks_for size - 1) (malloc m h size) shows a)
        | inr r ↦ absurd (given (rw r.nothing))
      ]

  Tail-not-first :
      (n i : ℕ) → Tail m e i n → (k : ℕ) → i ≤ k → k < i + n → bit_and (m (at e k)) is_first ≡ 0
  Tail-not-first zero i t k p q = absurd (omega arith)
  Tail-not-first (suc n) i (v, t) k p q = elim (Bool-cases (k == i)) [
    | inl same ↦ ground arith
    | inr ne ↦ Tail-not-first n (i + 1) t k (ground arith) (omega arith)
  ]

  -- At the address of a later block of an allocation `free` does what it does at block 0.
  free-interior :
      (pre post : List Chunk) (n j : ℕ)
      → Shows m h (pre ++ (run n ∷ post))
      → 0 < j
      → j ≤ n
      → free m h (block_address h (blocks pre + j)) ≡ free m h (block_address h 0)
  free-interior pre post n j shows pos within =
      let (_, t) = Shows-Holds m h placed pre post n shows in
      free_not_first m h (block_address h (blocks pre + j)) (block_address h 0)
        (rw (block_of_address m h placed (blocks pre + j) (omega (arith, room)))
          (Tail-not-first n (blocks pre + 1) t (blocks pre + j) (omega arith) (omega arith)))
        (block_of_address m h placed 0 (omega (arith, room)))
    where
      room : blocks pre + suc n + blocks post ≡ h.table.total
      room = omega (arith, shows.count, blocks_of m h placed pre (run n ∷ []) post)

  -- With an allocation at the start of the heap, free at the address of a later block of another
  -- allocation does not free that one: it frees the one at the start, and the other stays.
  pub free-interior_first :
      (k n j : ℕ) (mid post : List Chunk)
      → Shows m h (run k ∷ (mid ++ (run n ∷ post)))
      → 0 < j
      → j ≤ n
      → Shows
          (free m h (block_address h (suc k + blocks mid + j)))
          h
          (gaps (suc k) ++ (mid ++ (run n ∷ post)))
  free-interior_first k n j mid post shows pos within =
      rw (free-interior (run k ∷ mid) post n j shows pos within)
        (free_refines m h placed [] (mid ++ (run n ∷ post)) k shows).0
