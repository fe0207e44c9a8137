-- ===== src/Path/Parts.antt =====
-- The next part of a path, for src/kernel/arch/x86/fs/path_parser.c.
use larva_os.Base.{ℕ, ◌+◌, ◌≤◌, ◌<◌, ◌≡◌, ◌≢◌, ◌⊎◌, Ram, null, Option, some, List}
use larva_os.Memory.Heap.Layout.{Chunk}
use larva_os.Memory.Heap.Refine.{Shows}
use larva_os.Memory.Kheap.{kernel_heap_size_bytes, kernel_heap_start_address, kmalloc}
use larva_os.Memory.Kheap.Laws.{kernel_heap}
use larva_os.Path.{slash}

module _ (m : Ram) (cs : List Chunk) (shows : Shows m kernel_heap cs) where
  -- The bytes from `p` to `p + n` lie outside the heap's table and its blocks.
  pub record IsApart (p n : ℕ) : Type 0 where
    pub present : 0 < p
    pub off_table : (p + n < 0x7e00) ⊎ (0xe200 ≤ p)
    pub off_heap :
        (p + n < kernel_heap_start_address)
        ⊎ (kernel_heap_start_address + kernel_heap_size_bytes ≤ p)
    pub fits : n + 2 ≤ kernel_heap_size_bytes

  -- The path of `n` bytes at `p` begins with `k` slashes and a part of `l` bytes, which ends at a
  -- slash or with the path.
  pub record Begins (p n k l : ℕ) : Type 0 where
    pub within : k + l ≤ n
    pub slashes : (j : ℕ) → j < k → m (p + j) ≡ slash
    pub part : (j : ℕ) → j < l → m (p + k + j) ≢ slash
    pub end : (k + l ≡ n) ⊎ (m (p + k + l) ≡ slash)

  -- A new object at `path` holds the `l` bytes from `s` on as a string. But for it only the table
  -- of the heap has changed.
  abbrev pub HoldsPart : ℕ → ℕ → ℕ → Ram → Type 0
  HoldsPart path s l m' =
      ((j : ℕ) → j < l → m' (path + j) ≡ m (s + j))
      × (m' (path + l) ≡ 0)
      × ((q : ℕ) → (q < 0x7e00) ⊎ (0xe200 ≤ q) → (q < path) ⊎ (path + l < q) → m' q ≡ m q)

  abbrev pub Takes : ℕ → ℕ → Option (ℕ × ℕ × Ram) → Type 0
  Takes s l r =
      (path : ℕ) × (m' : Ram) × (r ≡ some (path, s + l, m'))
      × (path ≡ (kmalloc m kernel_heap (l + 1)).0)
      × (path ≢ null → HoldsPart path s l m')

  -- NULL at the end of the path, or its next part.
  abbrev pub NextPart : ℕ → ℕ → Option (ℕ × ℕ × Ram) → Type 0
  NextPart p n r =
      (k : ℕ) × (l : ℕ) × Begins p n k l
      × (((l ≡ 0) × (k ≡ n) × (r ≡ some (null, p + n, m))) ⊎ ((0 < l) × Takes (p + k) l r))
