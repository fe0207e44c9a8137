-- ===== src/Memory/Paging/Space.antt =====
-- A new address space, for src/kernel/arch/x86/memory/paging.c.
use larva_os.Base.{
  ℕ, zero, suc, ◌+◌, ◌-◌, ◌*◌, ◌/◌, ◌%◌, ◌≤◌, ◌<◌, ◌≡◌, refl, ◌⊎◌, inl, inr, arith, Ram, ap, sym,
  ◌∙◌, subst, bit_or, u32, load32, store32, load32_ext, load32-store32_self, store32_frame,
  Bool-cases, ◌==◌, ==_iff, ==_neq,
}
use larva_os.Base.Bits.{or_page, or_split, or-zero}
use larva_os.Memory.Kheap.Laws.{kernel_heap}
use larva_os.Memory.Kheap.Packed.{Packed, Packed-kept, block, kzalloc_next}
use larva_os.Memory.Paging.{fill_table, make_tables}

abbrev pub Below : ℕ → ℕ → ℕ → Type 0
Below p n q = (q < p) ⊎ (p + n ≤ q)

-- The word for the `j`th page of a table that starts with the page at `offset`.
abbrev pub word : ℕ → ℕ → ℕ → ℕ
word offset flags j = u32 (offset + j * 4096) + flags

word-or :
    (offset flags j : ℕ)
    → offset % 4096 ≡ 0
    → flags < 4096
    → bit_or (u32 (offset + j * 4096)) flags ≡ word offset flags j
word-or offset flags j aligned small =
    or_page (u32 (offset + j * 4096)) flags (omega (arith, aligned)) small

-- The words from the `j`th on are set, and no other byte.
abbrev Filled : Ram → Ram → ℕ → ℕ → ℕ → ℕ → ℕ → Type 0
Filled m m' entry offset flags left j =
    ((i : ℕ) → j ≤ i → i < j + left → load32 m' (entry + 4 * i) ≡ word offset flags i)
    × ((q : ℕ) → Below (entry + 4 * j) (4 * left) q → m' q ≡ m q)

fill_table_lem :
    (left j : ℕ) (m : Ram) (entry offset flags : ℕ)
    → offset % 4096 ≡ 0
    → flags < 4096
    → Filled m (fill_table m entry offset flags left j) entry offset flags left j
unfolding fill_table
fill_table_lem zero j m entry offset flags aligned small =
    (λ i low high. absurd (omega (arith, low, high)), λ q o. refl)
fill_table_lem (suc left) j m entry offset flags aligned small =
    let value = bit_or (u32 (offset + j * 4096)) flags in
    let e = word-or offset flags j aligned small in
    let m1 = store32 m (entry + 4 * j) value in
    let (words, frame) = fill_table_lem left (j + 1) m1 entry offset flags aligned small in
    let m' = fill_table m1 entry offset flags left (j + 1) in
    (
      λ i low high. elim (Bool-cases (i == j)) [
        | inr f ↦ words i (omega (arith, low, ==_neq _ _ f)) (omega (arith, high))
        | inl t ↦
            let same : i ≡ j = (==_iff _ _).0 t in
            load32_ext m' m1 (entry + 4 * i) (λ q a b. frame q (omega (arith, a, b, same)))
            ∙ ap (λ x. load32 m1 (entry + 4 * x)) same
            ∙ load32-store32_self m (entry + 4 * j) value (omega (arith, e, small, aligned))
            ∙ e
            ∙ ap (word offset flags) (sym same)
      ],
      λ q o.
          frame q (omega (arith, o)) ∙ store32_frame m (entry + 4 * j) value q (omega (arith, o)),
    )

module _ (flags entry_flags : ℕ) (small : flags < 4096) (writeable : bit_or flags 2 ≡ entry_flags)
    (entry_small : entry_flags < 4096) where
  entry-or : (x : ℕ) → x % 4096 ≡ 0 → bit_or (bit_or x flags) 2 ≡ x + entry_flags
  entry-or x aligned =
      let low = or_page x flags aligned small in
      let quotient : (x + flags) / 4096 ≡ x / 4096 = omega (arith, aligned, small) in
      let rest : (x + flags) % 4096 ≡ flags = omega (arith, aligned, small) in
      rw (low, or_split 12 (x + flags) 2, quotient, rest, writeable, or-zero (x / 4096))
        (omega (arith, aligned))

  -- The tables from the `i`th on stand in the blocks from `b` on, each entry of the directory names
  -- its table, and each word of a table the page of the same number.
  pub record Made (m m' : Ram) (b directory left i : ℕ) : Type 0 where
    pub packed : Packed m' (b + left)
    pub entries :
        (t : ℕ)
        → i ≤ t
        → t < i + left
        → load32 m' (directory + 4 * t) ≡ block (b + (t - i)) + entry_flags
    pub words :
        (t j : ℕ)
        → i ≤ t
        → t < i + left
        → j < 1024
        → load32 m' (block (b + (t - i)) + 4 * j) ≡ word (u32 (t * 4194304)) flags j
    pub frame :
        (q : ℕ) → 0xe200 ≤ q → q < block b → Below (directory + 4 * i) (4 * left) q → m' q ≡ m q

  -- One table is made, and then those behind it.
  first_table :
      (left : ℕ) (m m1 m2 m' : Ram) (b directory i : ℕ)
      → b + suc left ≤ 25600
      → i + suc left ≤ 1024
      → 0xe200 ≤ directory
      → directory + 4096 ≤ block b
      → ((q : ℕ) → (q < 0x7e00) ⊎ (0xe200 ≤ q) → (q < block b) ⊎ (block b + 4096 ≤ q) → m1 q ≡ m q)
      → Filled m1 m2 (block b) (u32 (i * 4194304)) flags 1024 0
      → Made
          (store32 m2 (directory + 4 * i) (bit_or (bit_or (block b) flags) 2))
          m'
          (suc b)
          directory
          left
          (suc i)
      → Made m m' b directory (suc left) i
  first_table left m m1 m2 m' b directory i room fits above below frame1 (words1, filled) rest =
      let value = bit_or (bit_or (block b) flags) 2 in
      let m3 = store32 m2 (directory + 4 * i) value in
      let value_is : value ≡ block b + entry_flags = entry-or (block b) (omega arith) in
      record {
        packed = subst (Packed m') (omega arith) rest.packed;
        entries = λ t low high. elim (Bool-cases (t == i)) [
          | inl same ↦
              let e : t ≡ i = (==_iff _ _).0 same in
              load32_ext m' m3 (directory + 4 * t) (λ q from to.
                rest.frame q (omega (arith, from, above)) (omega (arith, to, e, below, fits))
                  (omega (arith, to, e)))
              ∙ ap (λ x. load32 m3 (directory + 4 * x)) e
              ∙ load32-store32_self m2 (directory + 4 * i) value
                  (omega (arith, value_is, entry_small, room))
              ∙ value_is
              ∙ omega (arith, e)
          | inr other ↦
              rest.entries t (omega (arith, low, ==_neq _ _ other)) (omega (arith, high))
              ∙ omega (arith, low, ==_neq _ _ other)
        ];
        words = λ t j low high small. elim (Bool-cases (t == i)) [
          | inl same ↦
              let e : t ≡ i = (==_iff _ _).0 same in
              let here : block (b + (t - i)) ≡ block b = omega (arith, e) in
              ap (λ x. load32 m' (x + 4 * j)) here
              ∙ load32_ext m' m2 (block b + 4 * j) (λ q from to.
                rest.frame q (omega (arith, from)) (omega (arith, to, small))
                  (omega (arith, from, below, fits))
                ∙ store32_frame m2 (directory + 4 * i) value q (omega (arith, from, below, fits)))
              ∙ words1 j (omega arith) (omega (arith, small))
              ∙ ap (λ x. word (u32 (x * 4194304)) flags j) (sym e)
          | inr other ↦
              ap (λ x. load32 m' (block x + 4 * j)) (omega (arith, low, ==_neq _ _ other))
              ∙ rest.words t j (omega (arith, low, ==_neq _ _ other)) (omega (arith, high)) small
        ];
        frame = λ q low high off.
            rest.frame q low (omega (arith, high)) (omega (arith, off))
            ∙ store32_frame m2 (directory + 4 * i) value q (omega (arith, off))
            ∙ filled q (omega (arith, high))
            ∙ frame1 q (inr low) (inl high);
      }

  pub make_tables_lem :
      (left : ℕ) (m : Ram) (b directory i : ℕ)
      → Packed m b
      → b + left ≤ 25600
      → i + left ≤ 1024
      → 0xe200 ≤ directory
      → directory + 4096 ≤ block b
      → Made m
          (make_tables m kernel_heap directory flags left i (u32 (i * 4194304)))
          b
          directory
          left
          i
  unfolding make_tables
  make_tables_lem zero m b directory i z room fits above below = record {
    packed = subst (Packed m) (omega arith) z;
    entries = λ t low high. absurd (omega (arith, low, high));
    words = λ t j low high small. absurd (omega (arith, low, high));
    frame = λ q low high off. refl;
  }
  make_tables_lem (suc left) m b directory i z room fits above below =
      let (m1, e, packed1, _, frame1) =
        kzalloc_next m b z (omega (arith, room)) 4096 (omega arith) (omega arith) in
      let offset = u32 (i * 4194304) in
      let m2 = fill_table m1 (block b) offset flags 1024 0 in
      let filled = fill_table_lem 1024 0 m1 (block b) offset flags (omega arith) small in
      let value = bit_or (bit_or (block b) flags) 2 in
      let m3 = store32 m2 (directory + 4 * i) value in
      let rest =
        make_tables_lem left m3 (suc b) directory (suc i)
          (Packed-kept m1 m3 (suc b)
            (λ q low high.
              store32_frame m2 (directory + 4 * i) value q (omega (arith, high, above))
              ∙ filled.1 q (omega (arith, high)))
            (omega (arith, room)) packed1)
          (omega (arith, room)) (omega (arith, fits)) above (omega (arith, below)) in
      let next : u32 (offset + 4194304) ≡ u32 (suc i * 4194304) = omega arith in
      let step : i + 1 ≡ suc i = omega arith in
      rw (e, next, step)
        (first_table left m m1 m2 _ b directory i room fits above below frame1 filled rest)
