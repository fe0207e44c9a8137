-- ===== src/Memory/Heap/Search.antt =====
-- What `get_free_blocks` of src/kernel/arch/x86/memory/heap.c finds.
use larva_os.Base.{
  ℕ, zero, suc, ◌+◌, ◌-◌, ◌^◌, ◌≤◌, ◌<◌, ◌≡◌, refl, ◌≢◌, ◌⊎◌, inl, inr, true, false, arith, u32,
  neg32, enomem, ◌==◌, if◌then◌else◌, Ram, at, Bool-cases, ==_iff, ==_false, ltb,
}
use larva_os.Memory.Heap.{Heap, block_entry_is_free, heap_get_entry_type, scan, get_free_blocks}

-- The table marks block `i` as free.
abbrev pub IsFree : Ram → ℕ → ℕ → Type 0
IsFree m entries i = block_entry_is_free (m (at entries i)) ≡ true

pub IsFree-zero : (m : Ram) (entries i : ℕ) → m (at entries i) ≡ 0 → IsFree m entries i
unfolding block_entry_is_free heap_get_entry_type
IsFree-zero m entries i e = rw e refl

-- The `n` blocks from `b` on are free.
abbrev pub FreeRun : Ram → ℕ → ℕ → ℕ → Type 0
FreeRun m entries b n = (j : ℕ) → b ≤ j → j < b + n → IsFree m entries j

pub not-free : (e : ℕ) → block_entry_is_free e ≡ false → ¬ (block_entry_is_free e ≡ true)
not-free e f t = cc (f, t)

past : (b count i : ℕ) → ltb (b + count) i ≡ false → i ≤ b + count
past b count i h = ground arith

module _ (m : Ram) (entries size total : ℕ) where
  -- The state of the loop at index `i`: the last `count` blocks are free, and no run of `size`
  -- free blocks begins before them.
  record Scanned (i count block : ℕ) : Type 0 where
    below : count < size
    within : count ≤ i
    number : block ≡ (if count == 0 then neg32 enomem else i - count)
    run : (j : ℕ) → i ≤ j + count → j < i → IsFree m entries j
    blocked : (b : ℕ) → b + count < i → ¬ FreeRun m entries b size

  abbrev Hit : ℕ → ℕ → Type 0
  Hit count block =
      (count ≡ size)
      × (block + size ≤ total)
      × FreeRun m entries block size
      × ((b : ℕ) → b < block → ¬ FreeRun m entries b size)

  abbrev Miss : ℕ → Type 0
  Miss count = (count ≢ size) × ((b : ℕ) → b + size ≤ total → ¬ FreeRun m entries b size)

  abbrev Outcome : ℕ × ℕ → Type 0
  Outcome (count, block) = Hit count block ⊎ Miss count

  module _ (small : total < 2 ^ 31) (fits : size < 2 ^ 32) where
    block_after :
        {i count block : ℕ}
        → i < total
        → Scanned i count block
        → (if block == neg32 enomem then i else block) ≡ i - count
    block_after {i} {count} {block} h s = ground (arith, s.number, s.within)

    Scanned-free :
        {i count block : ℕ}
        → i < total
        → Scanned i count block
        → IsFree m entries i
        → count + 1 ≢ size
        → Scanned (i + 1) (count + 1) (if block == neg32 enomem then i else block)
    Scanned-free {i} {count} h s f ne = record {
      below = omega (arith, s.below);
      within = omega (arith, s.within);
      number = rw (block_after h s) (ground (arith, s.within));
      run = λ j p q. elim (Bool-cases (j == i)) [
        | inl e ↦ ground arith
        | inr e ↦ s.run j (omega arith) (ground arith)
      ];
      blocked = λ b p. s.blocked b (omega arith);
    }

    Scanned-taken :
        {i count block : ℕ}
        → Scanned i count block
        → block_entry_is_free (m (at entries i)) ≡ false
        → Scanned (i + 1) 0 (neg32 enomem)
    Scanned-taken {i} {count} s f = record {
      below = omega (arith, s.below);
      within = omega arith;
      number = refl;
      run = λ j p q. absurd (omega arith);
      blocked = λ b p all. elim (Bool-cases (ltb (b + count) i)) [
        | inl e ↦ s.blocked b (ground arith) all
        | inr e ↦
            absurd (not-free _ f (all i (omega arith) (omega (arith, s.below, past b count i e))))
      ];
    }

    hit :
        {i count block : ℕ}
        → i < total
        → Scanned i count block
        → IsFree m entries i
        → count + 1 ≡ size
        → Hit (count + 1) (if block == neg32 enomem then i else block)
    hit {i} {count} h s f e = rw (block_after h s) (
      e,
      omega (arith, s.within),
      λ j p q. elim (Bool-cases (j == i)) [
        | inl same ↦ ground arith
        | inr ne ↦ s.run j (omega (arith, s.within)) (ground (arith, s.within))
      ],
      λ b p. s.blocked b (omega (arith, s.within)),
    )

    scan-Outcome :
        (left i count block : ℕ)
        → i + left ≡ total
        → Scanned i count block
        → Outcome (scan m entries size left i count block)
    unfolding scan
    scan-Outcome zero i count block e s =
        inr (omega (arith, s.below), λ b p. s.blocked b (omega (arith, s.below)))
    scan-Outcome (suc left) i count block e s =
        let inside : i < total = omega arith in
        let same : u32 (count + 1) ≡ count + 1 = omega (arith, s.below) in
        elim (Bool-cases (block_entry_is_free (m (at entries i)))) [
          | inl f ↦
              rw (f, same)
                (elim (Bool-cases (count + 1 == size)) [
                  | inl last ↦ rw last (inl (hit inside s f (ground arith)))
                  | inr more ↦ rw more (
                      scan-Outcome left (i + 1) (count + 1) _ (omega arith)
                        (Scanned-free inside s f (ground arith)))
                ])
          | inr t ↦
              rw t (scan-Outcome left (i + 1) 0 (neg32 enomem) (omega arith) (Scanned-taken s t))
        ]

module _ (m : Ram) (heap : Heap) where
  -- On a table of fewer than 2 ^ 31 blocks a request of at least one block is answered by the
  -- first run of that many free blocks, and by -ENOMEM exactly if there is none.
  pub get_free_blocks_first_fit :
      (size : ℕ)
      → 0 < size
      → size < 2 ^ 32
      → heap.table.total < 2 ^ 31
      → ((get_free_blocks m heap size + size ≤ heap.table.total)
          × FreeRun m heap.table.entries (get_free_blocks m heap size) size
          × ((b : ℕ) → b < get_free_blocks m heap size → ¬ FreeRun m heap.table.entries b size))
        ⊎ ((get_free_blocks m heap size ≡ neg32 enomem)
            × ((b : ℕ) → b + size ≤ heap.table.total → ¬ FreeRun m heap.table.entries b size))
  unfolding get_free_blocks
  get_free_blocks_first_fit size pos fits small =
      elim (scan-Outcome m heap.table.entries size heap.table.total small fits heap.table.total 0 0
        (neg32 enomem) (omega arith) start) [
          | inl (e, room, run, first) ↦ rw ((==_iff _ _).1 e) (inl (room, run, first))
          | inr (ne, none_free) ↦ rw (==_false _ _ ne) (inr (refl, none_free))
        ]
    where
      start : Scanned m heap.table.entries size heap.table.total 0 0 (neg32 enomem)
      start = record {
        below = pos;
        within = omega arith;
        number = refl;
        run = λ j p q. absurd (omega arith);
        blocked = λ b p. absurd (omega arith);
      }
