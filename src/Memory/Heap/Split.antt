-- ===== src/Memory/Heap/Split.antt =====
-- Where free blocks that `get_free_blocks` of src/kernel/arch/x86/memory/heap.c finds lie in a
-- layout.
use larva_os.Base.{
  ℕ, zero, suc, ◌+◌, ◌-◌, ◌≤◌, ◌<◌, ◌≡◌, refl, inl, inr, false, List, [], ◌∷◌, ◌++◌, arith, ◌==◌,
  leb, if◌then◌else◌, Ram, at, ap, Bool-cases, subst, true,
}
use native.Mathlib.Nat.{add-zero}
use larva_os.Memory.Heap.{block_entry_is_free}
use larva_os.Memory.Heap.Layout.{Chunk, gap, run, blocks, gaps, Tail, Layout}
use larva_os.Memory.Heap.Search.{FreeRun, not-free}

-- The chunks with `n` gaps from block `b` on.
pub record Split (cs : List Chunk) (b n : ℕ) : Type 0 where
  pub pre : List Chunk
  pub post : List Chunk
  pub whole : cs ≡ pre ++ (gaps n ++ post)
  pub offset : blocks pre ≡ b

leb→le : (a b : ℕ) → leb a b ≡ true → a ≤ b
leb→le a b h = ground arith

ltb_of_leb : (a b : ℕ) → leb a b ≡ false → b < a
ltb_of_leb a b h = ground arith

cons-Split :
    {cs : List Chunk} {b n : ℕ} (c : Chunk) (k : ℕ)
    → blocks (c ∷ []) ≡ k
    → Split cs b n
    → Split (c ∷ cs) (k + b) n
cons-Split gap k h s = record {
  pre = gap ∷ s.pre;
  post = s.post;
  whole = ap (λ t. gap ∷ t) s.whole;
  offset = omega (arith, s.offset);
}
cons-Split (run i) k h s = record {
  pre = run i ∷ s.pre;
  post = s.post;
  whole = ap (λ t. run i ∷ t) s.whole;
  offset = omega (arith, s.offset);
}

module _ (m : Ram) (e : ℕ) where
  first_taken :
      (k i : ℕ)
      → m (at e i) ≡ (if k == 0 then 0x41 else 0xc1)
      → block_entry_is_free (m (at e i)) ≡ false
  unfolding block_entry_is_free
  first_taken k i v = rw v (ground arith)

  pub Tail-taken :
      (n i : ℕ)
      → Tail m e i n
      → (j : ℕ) → i ≤ j
      → j < i + n
      → block_entry_is_free (m (at e j)) ≡ false
  unfolding block_entry_is_free
  Tail-taken zero i t j p q = absurd (omega arith)
  Tail-taken (suc n) i (v, t) j p q = elim (Bool-cases (j == i)) [
    | inl same ↦ ground arith
    | inr ne ↦ Tail-taken n (i + 1) t j (ground arith) (omega arith)
  ]

  run_taken :
      (k i : ℕ)
      → m (at e i) ≡ (if k == 0 then 0x41 else 0xc1)
      → Tail m e (i + 1) k
      → (b : ℕ) → b < suc k
      → block_entry_is_free (m (at e (i + b))) ≡ false
  run_taken k i v t zero h = rw add-zero (first_taken k i v)
  run_taken k i v t (suc b) h = Tail-taken k (i + 1) t (i + suc b) (omega arith) (omega arith)

  take_gaps :
      (n : ℕ) (cs : List Chunk) (i : ℕ)
      → Layout m e i cs
      → FreeRun m e i n
      → n ≤ blocks cs
      → (post : List Chunk) × (cs ≡ gaps n ++ post)
  take_gaps zero cs i l f h = (cs, refl)
  take_gaps (suc n) [] i l f h = absurd (omega arith)
  take_gaps (suc n) (gap ∷ cs) i (v, l) f h =
      let (post, whole) =
        take_gaps n cs (i + 1) l (λ j p q. f j (omega arith) (omega arith)) (omega arith) in
      (post, ap (λ t. gap ∷ t) whole)
  take_gaps (suc n) (run k ∷ cs) i (v, t, l) f h =
      absurd (not-free _ (first_taken k i v) (f i (omega arith) (omega arith)))

  -- A run of free blocks meets no allocation.
  pub split :
      (cs : List Chunk) (i b n : ℕ)
      → 0 < n
      → Layout m e i cs
      → FreeRun m e (i + b) n
      → b + n ≤ blocks cs
      → Split cs b n
  split [] i b n pos l f h = absurd (omega arith)
  split (gap ∷ cs) i zero n pos l f h =
      let (post, whole) =
        take_gaps n (gap ∷ cs) i l (λ j p q. f j (omega arith) (omega arith)) (omega arith) in
      record { pre = []; post = post; whole = whole; offset = refl }
  split (gap ∷ cs) i (suc b) n pos (v, l) f h =
      subst (λ t. Split (gap ∷ cs) t n) (omega arith)
        (cons-Split gap 1 refl
          (split cs (i + 1) b n pos l (λ j p q. f j (omega arith) (omega arith)) (omega arith)))
  split (run k ∷ cs) i b n pos (v, t, l) f h = elim (Bool-cases (leb (suc k) b)) [
    | inl past ↦
        let below : suc k ≤ b = leb→le _ _ past in
        subst (λ t. Split (run k ∷ cs) t n) (omega arith)
          (cons-Split (run k) (suc k) (omega arith) (
            split cs (i + suc k) (b - suc k) n pos l (λ j p q. f j (omega arith) (omega arith))
              (omega arith)))
    | inr within ↦ absurd (
        not-free _ (run_taken k i v t b (ltb_of_leb _ _ within))
          (f (i + b) (omega arith) (omega arith)))
  ]
