-- ===== src/Memory/Heap/Clear.antt =====
-- What `mark_blocks_free` of src/kernel/arch/x86/memory/heap.c clears.
use larva_os.Base.{
  ℕ, zero, suc, ◌+◌, ◌-◌, ◌^◌, ◌≤◌, ◌<◌, ◌≡◌, refl, ◌≢◌, arith, ◌==◌, if◌then◌else◌, Ram, write, at,
  bit_and, ◌∙◌, leb, ==_false, ==_iff, ◌&&◌,
}
use larva_os.Memory.Heap.{
  Heap, find_first, clear_run, mark_blocks_free, entry_free, has_next, is_first,
}
use larva_os.Memory.Heap.Layout.{Tail, Tail-frame}

module _ (m : Ram) (e num : ℕ) where
  -- At a first block the walk stops at once.
  pub find_first_here : bit_and (m (at e num)) is_first ≢ 0 → find_first m e num num ≡ num
  find_first_here h = at_once num
    where
      at_once : (k : ℕ) → find_first m e num k ≡ k
      at_once zero = unfold find_first in refl
      at_once (suc k) = unfold find_first in rw (==_false _ _ h)

  -- The walk tests the same entry in each round, so elsewhere it goes on to block 0.
  pub find_first_zero : (k : ℕ) → bit_and (m (at e num)) is_first ≡ 0 → find_first m e num k ≡ 0
  unfolding find_first
  find_first_zero zero h = refl
  find_first_zero (suc k) h = rw ((==_iff _ _).1 h) (find_first_zero k h)

module _ (e : ℕ) where
  -- The entry of block `i` says that `n` more blocks follow.
  abbrev pub Leads : Ram → ℕ → ℕ → Type 0
  Leads m i n = ((bit_and (m (at e i)) has_next == 0) ≡ (n == 0)) × Tail m e (i + 1) n

  abbrev pub cleared : Ram → ℕ → ℕ → Ram
  cleared m i n q = if leb (e + i) q && leb q (e + i + n) then entry_free else m q

  Leads-next :
      (m : Ram) (i n : ℕ)
      → e + i + suc n < 2 ^ 32
      → Leads m i (suc n)
      → Leads (write m (at e i) entry_free) (i + 1) n
  Leads-next m i n room (_, (v, t)) = (
    ground arith,
    Tail-frame m (write m (at e i) entry_free) e n (i + 1 + 1) (λ k p q. ground arith) t,
  )

  pub clear_run_lem :
      (n left i : ℕ) (m : Ram)
      → n < left
      → e + i + n < 2 ^ 32
      → Leads m i n
      → (q : ℕ) → clear_run m e left i q ≡ cleared m i n q
  unfolding clear_run
  clear_run_lem n zero i m h room l q = absurd (omega arith)
  clear_run_lem zero (suc left) i m h room l q = rw l.0 (ground arith)
  clear_run_lem (suc n) (suc left) i m h room l q =
      rw (l.0 ∙ ==_false (suc n) 0 (λ p. omega arith)) (
        clear_run_lem n left (i + 1) (write m (at e i) entry_free) (omega arith) (omega arith)
          (Leads-next m i n room l) q
        ∙ ground arith)

module _ (m : Ram) (heap : Heap) where
  abbrev entries : ℕ
  entries = heap.table.entries

  -- Freed by its first block, an allocation is cleared, and no other byte changes.
  pub mark_blocks_free-first :
      (b n : ℕ)
      → b + n < heap.table.total
      → entries + heap.table.total ≤ 2 ^ 32
      → bit_and (m (at entries b)) is_first ≢ 0
      → Leads entries m b n
      → (q : ℕ) → mark_blocks_free m heap b q ≡ cleared entries m b n q
  unfolding mark_blocks_free
  mark_blocks_free-first b n room fits first l q =
      rw (find_first_here m entries b first)
        (clear_run_lem entries n (heap.table.total - b) b m (omega arith) (omega arith) l q)

  -- Elsewhere the call does what it does for block 0.
  pub mark_blocks_free-interior :
      (num : ℕ)
      → bit_and (m (at entries num)) is_first ≡ 0
      → mark_blocks_free m heap num ≡ mark_blocks_free m heap 0
  unfolding mark_blocks_free
  mark_blocks_free-interior num h = rw (find_first_zero m entries num num h, find_first)
