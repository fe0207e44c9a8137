-- ===== src/Memory/Kheap/Packed.antt =====
-- The kernel's heap while nothing is given back: blocks are taken one after the other. For
-- src/kernel/arch/x86/memory/kheap.c.
use larva_os.Base.{
  ℕ, suc, ◌+◌, ◌-◌, ◌*◌, ◌≤◌, ◌<◌, ◌≡◌, ◌≢◌, ◌⊎◌, inl, inr, arith, Ram, at, ap, sym, ◌∙◌, subst,
  null, List, [], ◌∷◌, ◌++◌, ==_false, Bool-cases, ◌==◌, ==_iff, ==_neq, if◌then◌else◌,
}
use larva_os.Disk.Stream.Round.{ltb-cases}
use larva_os.Libc.Memory.{memset, memset_lem}
use larva_os.Memory.Heap
use larva_os.Memory.Heap.Layout.{Chunk, Layout, Layout-frame, Layout-split, blocks, gaps, run}
use larva_os.Memory.Heap.Refine.{Allocated, Shows, blocks_for, blocks_of}
use larva_os.Memory.Heap.Requests.{malloc_refines}
use larva_os.Memory.Heap.Search.{IsFree-zero}
use larva_os.Memory.Kheap.{kmalloc, kzalloc}
use larva_os.Memory.Kheap.Laws.{kernel_heap, kernel_heap-IsPlaced}

-- The first `b` blocks of the kernel's heap are taken, and all others are free.
pub record Packed (m : Ram) (b : ℕ) : Type 0 where
  pub chunks : List Chunk
  pub shows : Shows m kernel_heap chunks
  pub taken : (i : ℕ) → i < b → m (at 0x7e00 i) ≢ 0
  pub free : (i : ℕ) → b ≤ i → i < 25600 → m (at 0x7e00 i) ≡ 0

-- The address of block `b`.
abbrev pub block : ℕ → ℕ
block b = 0x1000000 + b * 4096

-- Two memories with the same table.
pub Packed-kept :
    (m n : Ram) (b : ℕ)
    → ((q : ℕ) → 0x7e00 ≤ q → q < 0xe200 → n q ≡ m q)
    → b ≤ 25600
    → Packed m b
    → Packed n b
Packed-kept m n b same fits z =
    let entry : (i : ℕ) → i < 25600 → n (at 0x7e00 i) ≡ m (at 0x7e00 i) =
      λ i h. same (at 0x7e00 i) (omega (arith, h)) (omega (arith, h)) in
    record {
      chunks = z.chunks;
      shows = record {
        layout =
            Layout-frame m n 0x7e00 z.chunks 0
              (λ i low high. entry i (omega (arith, high, z.shows.count))) z.shows.layout;
        count = z.shows.count;
      };
      taken = λ i h e. z.taken i h (sym (entry i (omega (arith, h, fits))) ∙ e);
      free = λ i low high. entry i high ∙ z.free i low high;
    }

module _ (m : Ram) (b : ℕ) (z : Packed m b) (room : b < 25600) where
  -- The block that is given, and the table then.
  taken_next :
      (out : ℕ × Ram)
      → Allocated m kernel_heap kernel_heap-IsPlaced z.chunks 0 out
      → (out.0 ≡ block b) × Packed out.1 (suc b) × ((q : ℕ) → q ≢ 0x7e00 + b → out.1 q ≡ m q)
  taken_next out a = (
    omega (arith, a.address, next),
    record {
      chunks = a.pre ++ (run 0 ∷ a.post);
      shows = a.after;
      taken = λ i h e. elim (Bool-cases (i == b)) [
        | inl t ↦ nonzero (out.1 (at 0x7e00 i)) (ap out.1 (at_same i ((==_iff _ _).0 t)) ∙ here) e
        | inr f ↦
            z.taken i (omega (arith, h, ==_neq _ _ f))
              (sym (a.frame (at 0x7e00 i) (omega (arith, h, ==_neq _ _ f, room, next))) ∙ e)
      ];
      free = λ i low high.
          a.frame (at 0x7e00 i) (omega (arith, low, high, next))
          ∙ z.free i (omega (arith, low)) high;
    },
    λ q ne. a.frame q (omega (arith, ne, next)),
  )
    where
      nonzero : (x : ℕ) → x ≡ 0x41 → x ≢ 0
      nonzero x e f = omega (arith, e, f)

      total : blocks a.pre < 25600
      total = omega (
        arith,
        a.after.count,
        blocks_of out.1 kernel_heap kernel_heap-IsPlaced a.pre (run 0 ∷ []) a.post,
      )

      was_free : m (at 0x7e00 (blocks a.pre)) ≡ 0
      was_free =
          let whole = subst (λ cs. Layout m 0x7e00 0 cs) a.before z.shows.layout in
          let (_, rest) = Layout-split m 0x7e00 a.pre (gaps 1 ++ a.post) 0 whole in
          ap (λ i. m (at 0x7e00 i)) (omega arith) ∙ rest.0

      next : blocks a.pre ≡ b
      next = elim (ltb-cases (blocks a.pre) b) [
        | inl early ↦ absurd (z.taken (blocks a.pre) early was_free)
        | inr late ↦ elim (ltb-cases b (blocks a.pre)) [
          | inl skipped ↦ absurd (
              a.first b skipped
                (λ j low high. IsFree-zero m 0x7e00 j (z.free j low (omega (arith, high, room)))))
          | inr same ↦ omega (arith, late, same)
        ]
      ]

      here : out.1 (at 0x7e00 b) ≡ 0x41
      here =
          let (_, rest) = Layout-split out.1 0x7e00 a.pre (run 0 ∷ a.post) 0 a.after.layout in
          ap (λ i. out.1 (at 0x7e00 i)) (omega (arith, next)) ∙ rest.0

      at_same : (i : ℕ) → i ≡ b → at 0x7e00 i ≡ at 0x7e00 b
      at_same i e = ap (at 0x7e00) e

  -- What kzalloc of at most a block gives: the block, whose first bytes are 0.
  abbrev pub Gives : ℕ → ℕ × Ram → Type 0
  Gives size r =
      (m' : Ram) × (r ≡ (block b, m'))
      × Packed m' (suc b)
      × ((q : ℕ) → block b ≤ q → q < block b + size → m' q ≡ 0)
      × ((q : ℕ) → (q < 0x7e00) ⊎ (0xe200 ≤ q) → (q < block b) ⊎ (block b + size ≤ q) → m' q ≡ m q)

  pub kzalloc_next : (size : ℕ) → 0 < size → size ≤ 4096 → Gives size (kzalloc m kernel_heap size)
  unfolding kzalloc kmalloc
  kzalloc_next size pos small =
      let one : blocks_for size - 1 ≡ 0 = omega (arith, pos, small) in
      elim (malloc_refines m kernel_heap kernel_heap-IsPlaced z.chunks size z.shows pos
        (omega (arith, small))) [
          | inr r ↦ absurd (
              r.full b (omega (arith, z.shows.count, room, small)) (λ j low high.
                IsFree-zero m 0x7e00 j (z.free j low (omega (arith, high, room, small)))))
          | inl a ↦ given size small (Heap.malloc m kernel_heap size) (
              subst
                (λ n.
                  Allocated m kernel_heap kernel_heap-IsPlaced z.chunks n
                    (Heap.malloc m kernel_heap size))
                one a)
        ]
    where
      given :
          (size : ℕ)
          → size ≤ 4096
          → (out : ℕ × Ram) → Allocated m kernel_heap kernel_heap-IsPlaced z.chunks 0 out
          → Gives size
              (if out.0 == null then (out.0, out.1) else (out.0, memset out.1 out.0 0 size))
      given size small out a =
          let (address, packed, frame) = taken_next out a in
          let present : out.0 ≢ null = omega (arith, address) in
          let m' = memset out.1 out.0 0 size in
          rw (==_false _ _ present) (
            m',
            ap (λ p. (p, m')) address,
            Packed-kept out.1 m' (suc b)
                (λ q low high. memset_lem out.1 out.0 0 size q ∙ ground (arith, low, high, address))
                (omega (arith, room)) packed,
            λ q low high. memset_lem out.1 out.0 0 size q ∙ ground (arith, low, high, address),
            λ q o off.
                memset_lem out.1 out.0 0 size q
                ∙ ground (arith, off, address)
                ∙ frame q (omega (arith, o, room)),
          )
