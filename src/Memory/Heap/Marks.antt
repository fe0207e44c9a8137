-- ===== src/Memory/Heap/Marks.antt =====
-- What `mark_blocks_taken` and `mark_blocks_free` of src/kernel/arch/x86/memory/heap.c write.
use larva_os.Base.{
  ℕ, zero, suc, ◌+◌, ◌-◌, ◌^◌, ◌≤◌, ◌<◌, ◌≡◌, refl, ◌⊎◌, false, arith, ◌==◌, if◌then◌else◌, Ram,
  write, at, bit_or, ◌∙◌, slt, sub32, ltb, ltb-false, is_neg,
}
use larva_os.Memory.Heap.{Heap, take_rest, mark_blocks_taken, entry_taken, has_next, is_first}
use larva_os.Memory.Heap.Layout.{Tail}

pub at_plain : (e i : ℕ) → e + i < 2 ^ 32 → at e i ≡ e + i
at_plain e i h = omega arith

module _ (e end : ℕ) (room : e + end < 2 ^ 32) where
  -- What one round of the loop stores.
  abbrev taken_entry : ℕ → ℕ
  taken_entry i = if i == end then 0x01 else 0x81

  abbrev round : Ram → ℕ → Ram
  round m i =
      let m1 = write m (at e i) entry_taken in
      if i == end then m1 else write m1 (at e i) (bit_or (m1 (at e i)) has_next)

  round_writes :
      (m : Ram) (i q : ℕ) → i ≤ end → round m i q ≡ (if q == e + i then taken_entry i else m q)
  round_writes m i q h = ground arith

  take_rest-frame :
      (left i : ℕ) (m : Ram)
      → i + left ≡ end + 1
      → (q : ℕ) → (q < e + i) ⊎ (e + end < q)
      → take_rest m e end left i q ≡ m q
  unfolding take_rest
  take_rest-frame zero i m h q o = refl
  take_rest-frame (suc left) i m h q o =
      take_rest-frame left (i + 1) (round m i) (omega arith) q (omega arith) ∙ outside
    where
      outside : round m i q ≡ m q
      outside = round_writes m i q (omega arith) ∙ ground arith

  take_rest-Tail :
      (left i : ℕ) (m : Ram) → i + left ≡ end + 1 → Tail (take_rest m e end left i) e i left
  unfolding take_rest
  take_rest-Tail zero i m h = tt
  take_rest-Tail (suc left) i m h = (
    take_rest-frame left (i + 1) (round m i) (omega arith) (at e i) (omega arith) ∙ stored,
    take_rest-Tail left (i + 1) (round m i) (omega arith),
  )
    where
      stored : round m i (at e i) ≡ (if left == 0 then 0x01 else 0x81)
      stored = round_writes m i (at e i) (omega arith) ∙ ground arith

module _ (m : Ram) (heap : Heap) where
  abbrev e : ℕ
  e = heap.table.entries

  -- The call with arguments in range: it reports success, writes the entries of the new
  -- allocation, and no other byte.
  pub record Taken (b n : ℕ) (out : ℕ × Ram) : Type 0 where
    pub result : out.0 ≡ 0
    pub first : out.1 (at e b) ≡ (if n == 0 then 0x41 else 0xc1)
    pub tail : Tail out.1 e (b + 1) n
    pub frame : (q : ℕ) → (q < e + b) ⊎ (e + b + n < q) → out.1 q ≡ m q

  abbrev after_first : ℕ → ℕ → Ram
  after_first b n =
      let m1 = write m (at e b) (bit_or entry_taken is_first) in
      if slt 1 (suc n) then write m1 (at e b) (bit_or (m1 (at e b)) has_next) else m1

  after_first_writes :
      (b n q : ℕ)
      → e + b < 2 ^ 32
      → suc n < 2 ^ 31
      → after_first b n q ≡ (if q == e + b then (if n == 0 then 0x41 else 0xc1) else m q)
  after_first_writes b n q h k = ground arith

  module _ (b n : ℕ) (room : b + suc n ≤ heap.table.total) (small : heap.table.total < 2 ^ 31) where
    end_fits : ltb (sub32 heap.table.total 1) (sub32 (b + suc n) 1) ≡ false
    end_fits = ltb-false _ _ (omega arith)

    end_block : sub32 (b + suc n) 1 ≡ b + n
    end_block = omega arith

    rounds : (if is_neg (b + n) then 0 else b + n - b) ≡ n
    rounds = ground arith

    mark_blocks_taken_steps :
        mark_blocks_taken m heap b (suc n) ≡ (0, take_rest (after_first b n) e (b + n) n (b + 1))
    unfolding mark_blocks_taken
    mark_blocks_taken_steps =
        rw (ltb-false (sub32 heap.table.total 1) b (omega arith), end_fits, end_block, rounds)

  pub mark_blocks_taken-Taken :
      (b n : ℕ)
      → b + suc n ≤ heap.table.total
      → heap.table.total < 2 ^ 31
      → e + heap.table.total ≤ 2 ^ 32
      → Taken b n (mark_blocks_taken m heap b (suc n))
  mark_blocks_taken-Taken b n room small fits =
      rw (mark_blocks_taken_steps b n room small) (record {
        result = refl;
        first =
            outside (at e b) (omega arith)
            ∙ (after_first_writes b n (at e b) (omega arith) (omega arith) ∙ ground arith);
        tail = take_rest-Tail e (b + n) (omega arith) n (b + 1) (after_first b n) (omega arith);
        frame = λ q o.
            outside q (omega arith)
            ∙ (after_first_writes b n q (omega arith) (omega arith) ∙ ground arith);
      })
    where
      outside :
          (q : ℕ)
          → (q < e + (b + 1)) ⊎ (e + (b + n) < q)
          → take_rest (after_first b n) e (b + n) n (b + 1) q ≡ after_first b n q
      outside = take_rest-frame e (b + n) (omega arith) n (b + 1) (after_first b n) (omega arith)
