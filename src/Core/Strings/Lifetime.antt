-- ===== src/Core/Strings/Lifetime.antt =====
-- What a string of the class string holds, and that it gives its memory back, for
-- src/kernel/core/string.cc.
use larva_os.Base.{
  ℕ, suc, ◌+◌, ◌-◌, ◌≤◌, ◌<◌, ◌≡◌, refl, ◌≢◌, ◌⊎◌, inl, inr, arith, Option, some, Ram, write, ap,
  ◌∙◌, sym, subst, ==_false, null, List, ◌++◌, ◌∷◌, [], u32,
}
use larva_os.Libc.Strings.Copies.{Clear, strcpy_lem}
use larva_os.Libc.Strings.Length.{IsString, strlen_lem}
use larva_os.Memory.Heap.Layout.{Chunk, Layout-frame, run, blocks}
use larva_os.Memory.Heap.Refine.{Shows, Allocated, blocks_for, blocks_of}
use larva_os.Memory.Heap.Release.{free_refines}
use larva_os.Memory.Heap.Requests.{malloc_refines}
use larva_os.Memory.Kheap.{kmalloc, kfree, kernel_heap_size_bytes}
use larva_os.Memory.Kheap.Laws.{kernel_heap, kernel_heap-IsPlaced, kmalloc-InHeap}
use larva_os.Core.Memory.{operator_new_array, operator_delete_array}
use larva_os.Core.Strings.{copy_text, string_of_chars, string_destroy}

-- The byte `q` is not in the table of the kernel's heap.
abbrev pub OffTable : ℕ → Type 0
OffTable q = (q < 0x7e00) ⊎ (0xe200 ≤ q)

same-IsString :
    (m m' : Ram) (s n : ℕ)
    → ((j : ℕ) → j ≤ n → m' (s + j) ≡ m (s + j))
    → IsString m s n
    → IsString m' s n
same-IsString m m' s n same z = record {
  inside = λ j h e. z.inside j h (sym (same j (omega (arith, h))) ∙ e);
  end = same n (omega arith) ∙ z.end;
}

-- The text of `n` bytes at `val` can be copied: it has an end, and none of its bytes is in the
-- table of the heap or in the `n + 1` bytes at `p`.
pub record IsText (m : Ram) (val n p : ℕ) : Type 0 where
  pub string : IsString m val n
  pub present : val ≢ null
  pub off_table : (val + n < 0x7e00) ⊎ (0xe200 ≤ val)
  pub clear : Clear p val n
  pub fits : n < kernel_heap_size_bytes

module _ (m : Ram) (cs : List Chunk) (shows : Shows m kernel_heap cs) (val n : ℕ) where
  abbrev block : ℕ × Ram
  block = kmalloc m kernel_heap (n + 1)

  -- A new string at `p` with the text at `val`, which is unchanged.
  abbrev pub Made : Option (ℕ × Ram) → Type 0
  Made r =
      (m' : Ram) × (r ≡ some (block.0, m'))
      × IsString m' block.0 n
      × ((j : ℕ) → j ≤ n → m' (block.0 + j) ≡ m (val + j))
      × ((q : ℕ) → (q < block.0) ⊎ (block.0 + n < q) → m' q ≡ block.1 q)

  block_frame : n < kernel_heap_size_bytes → (q : ℕ) → OffTable q → block.1 q ≡ m q
  block_frame fits q o =
      (kmalloc-InHeap m cs shows (n + 1) (omega arith) (omega (arith, fits))).1 q o

  -- The 0 that is written behind the copy stands there already.
  ended_lem :
      (m2 : Ram)
      → IsText m val n block.0
      → ((j : ℕ) → j ≤ n → block.1 (val + j) ≡ m (val + j))
      → ((j : ℕ) → j ≤ n → m2 (block.0 + j) ≡ block.1 (val + j))
      → ((q : ℕ) → (q < block.0) ⊎ (block.0 + n < q) → m2 q ≡ block.1 q)
      → Made (some (block.0, write m2 (block.0 + n) 0))
  ended_lem m2 t old holds frame =
      let p = block.0 in
      let m' = write m2 (p + n) 0 in
      let same : (q : ℕ) → m' q ≡ m2 q = λ q. ground (
        arith,
        λ (e : q ≡ p + n). ap m2 e ∙ holds n (omega arith) ∙ old n (omega arith) ∙ t.string.end,
      ) in
      let text : (j : ℕ) → j ≤ n → m' (p + j) ≡ m (val + j) =
        λ j h. same (p + j) ∙ holds j h ∙ old j h in
      (
        m',
        refl,
        record {
          inside = λ j h e. t.string.inside j h (sym (text j (omega (arith, h))) ∙ e);
          end = text n (omega arith) ∙ t.string.end;
        },
        text,
        λ q o. same q ∙ frame q o,
      )

  made_lem :
      (fuel : ℕ) → IsText m val n block.0 → n < fuel → Made (copy_text fuel m kernel_heap val)
  unfolding copy_text operator_new_array
  made_lem fuel t enough =
      let old : (j : ℕ) → j ≤ n → block.1 (val + j) ≡ m (val + j) =
        λ j h. block_frame t.fits (val + j) (omega (arith, t.off_table, h)) in
      let source = same-IsString m block.1 val n old t.string in
      let (m2, e, (holds, frame)) = strcpy_lem fuel n block.1 block.0 val source t.clear enough in
      let kept : (j : ℕ) → j ≤ n → m2 (val + j) ≡ block.1 (val + j) =
        λ j h. frame (val + j) (omega (arith, t.clear, h)) in
      let source2 = same-IsString block.1 m2 val n kept source in
      let size : u32 (n + 1) ≡ n + 1 = omega (arith, t.fits) in
      rw (strlen_lem m n val fuel t.string enough, size, e, strlen_lem m2 n val fuel source2 enough)
        (ended_lem m2 t old holds frame)

  -- The string at `block.0` is destroyed: the table shows the old list, and nothing else changes.
  Destroyed : Ram → Type 0
  Destroyed m' =
      let after = string_destroy m' kernel_heap block.0 in
      Shows after kernel_heap cs × ((q : ℕ) → OffTable q → after q ≡ m' q)

  freed_lem :
      (k : ℕ) (m' : Ram)
      → Allocated m kernel_heap kernel_heap-IsPlaced cs k block
      → ((q : ℕ) → (q < block.0) ⊎ (block.0 + n < q) → m' q ≡ block.1 q)
      → Destroyed m'
  unfolding Destroyed string_destroy operator_delete_array kfree
  freed_lem k m' a frame =
      let shows' : Shows m' kernel_heap (a.pre ++ (run k ∷ a.post)) = record {
        layout =
            Layout-frame block.1 m' 0x7e00 (a.pre ++ (run k ∷ a.post)) 0
              (λ i low high. frame _ (omega (arith, high, a.after.count, a.address)))
              a.after.layout;
        count = a.after.count;
      } in
      let (shown, kept) = free_refines m' kernel_heap kernel_heap-IsPlaced a.pre a.post k shows' in
      let present : block.0 ≢ null = omega (arith, a.address) in
      rw (==_false _ _ present, a.address)
        (subst (Shows _ kernel_heap) (sym a.before) shown, λ q o. kept q (omega (arith, o, room)))
    where
      room : blocks a.pre + suc k + blocks a.post ≡ 25600
      room = omega (
        arith,
        a.after.count,
        blocks_of block.1 kernel_heap kernel_heap-IsPlaced a.pre (run k ∷ []) a.post,
      )

  destroyed_lem :
      (m' : Ram)
      → n < kernel_heap_size_bytes
      → block.0 ≢ null
      → ((q : ℕ) → (q < block.0) ⊎ (block.0 + n < q) → m' q ≡ block.1 q)
      → Destroyed m'
  unfolding kmalloc
  destroyed_lem m' fits given frame =
      elim (malloc_refines m kernel_heap kernel_heap-IsPlaced cs (n + 1) shows (omega arith)
        (omega (arith, fits))) [
          | inl a ↦ freed_lem (blocks_for (n + 1) - 1) m' a frame
          | inr r ↦ absurd (given (rw r.nothing refl))
        ]

  -- What the constructor and the destructor of a string do to the memory.
  abbrev pub Lives : ℕ → Option (ℕ × Ram) → Type 0
  Lives p r =
      (m' : Ram) × (r ≡ some (p, m'))
      × IsString m' p n
      × ((j : ℕ) → j ≤ n → m' (p + j) ≡ m (val + j))
      × ((q : ℕ) → OffTable q → (q < p) ⊎ (p + n < q) → m' q ≡ m q)
      × Shows (string_destroy m' kernel_heap p) kernel_heap cs
      × ((q : ℕ) → OffTable q → (q < p) ⊎ (p + n < q) → string_destroy m' kernel_heap p q ≡ m q)

  -- On a table that shows a list of free blocks and allocations, where the heap gives the block
  -- that the string asks for, the constructor of a string ends; the string is a copy of the text,
  -- in that block; no other byte is changed but entries of the table; and when the string is
  -- destroyed then, the table shows the old list again, and outside the table and the block all
  -- bytes are the old ones. The text has an end, and it has no byte in the table or in the block.
  pub string_lifetime :
      (fuel : ℕ)
      → IsText m val n block.0
      → n < fuel
      → block.0 ≢ null
      → Lives block.0 (string_of_chars fuel m kernel_heap val)
  unfolding string_of_chars Destroyed
  string_lifetime fuel t enough given =
      let (m', e, string, text, frame) = made_lem fuel t enough in
      let (shown, kept) = destroyed_lem m' t.fits given frame in
      rw (==_false _ _ t.present) (
        m',
        e,
        string,
        text,
        λ q o off. frame q off ∙ block_frame t.fits q o,
        shown,
        λ q o off. kept q o ∙ frame q off ∙ block_frame t.fits q o,
      )

  refused_lem : n < kernel_heap_size_bytes → block.0 ≡ null → block.1 ≡ m
  unfolding kmalloc
  refused_lem fits none_given =
      elim (malloc_refines m kernel_heap kernel_heap-IsPlaced cs (n + 1) shows (omega arith)
        (omega (arith, fits))) [
          | inl a ↦ absurd (omega (arith, a.address, none_given))
          | inr r ↦ ap (λ (out : ℕ × Ram). out.1) r.nothing
        ]

  -- Where the heap is full the constructor puts the text at address 0: every byte of it, and no
  -- other byte of memory changes. The text has an end and no byte in the table or below `n + 1`.
  pub string_at_null :
      (fuel : ℕ)
      → IsText m val n 0
      → n < fuel
      → block.0 ≡ null
      → (m' : Ram) × (string_of_chars fuel m kernel_heap val ≡ some (null, m'))
        × ((j : ℕ) → j ≤ n → m' j ≡ m (val + j))
        × ((q : ℕ) → n < q → m' q ≡ m q)
  unfolding string_of_chars
  string_at_null fuel t enough full =
      let (m', e, string, text, frame) =
        made_lem fuel (subst (IsText m val n) (sym full) t) enough in
      rw (==_false _ _ t.present) (
        m',
        e ∙ ap (λ p. some (p, m')) full,
        λ j h. ap m' (omega (arith, full)) ∙ text j h,
        λ q off.
            frame q (omega (arith, off, full)) ∙ ap (λ (x : Ram). x q) (refused_lem t.fits full),
      )
