-- ===== src/Core/Strings/Assign.antt =====
-- What the assignment of a text to a string does, for src/kernel/core/string.cc.
use larva_os.Base.{
  ℕ, suc, ◌+◌, ◌≤◌, ◌<◌, ◌≡◌, ◌≢◌, ◌⊎◌, arith, Option, some, Ram, ◌∙◌, ==_false, null, List, ◌++◌,
  ◌∷◌, [], sym,
}
use larva_os.Libc.Strings.Length.{IsString}
use larva_os.Memory.Heap.Layout.{Chunk, blocks, gaps, run}
use larva_os.Memory.Heap.Refine.{Shows, block_address, blocks_of}
use larva_os.Memory.Heap.Release.{free_refines}
use larva_os.Memory.Kheap.{kfree, kmalloc}
use larva_os.Memory.Kheap.Laws.{kernel_heap, kernel_heap-IsPlaced}
use larva_os.Core.Memory.{operator_delete_array}
use larva_os.Core.Strings.{string_assign, string_destroy}
use larva_os.Core.Strings.Lifetime.{IsText, OffTable, string_lifetime}

-- The string's text is the first block of `k + 1` blocks behind `pre`.
module _ (m : Ram) (pre post : List Chunk) (k : ℕ)
    (shows : Shows m kernel_heap (pre ++ (run k ∷ post))) (val n : ℕ) where
  abbrev pub old : ℕ
  old = block_address kernel_heap (blocks pre)

  -- The memory when the old text is released, and the block of the new one.
  abbrev pub released : Ram
  released = kfree m kernel_heap old

  abbrev pub new : ℕ
  new = (kmalloc released kernel_heap (n + 1)).0

  pub released-Shows : Shows released kernel_heap (pre ++ (gaps (suc k) ++ post))
  unfolding kfree
  released-Shows = (free_refines m kernel_heap kernel_heap-IsPlaced pre post k shows).0

  released_frame : (q : ℕ) → OffTable q → released q ≡ m q
  unfolding kfree
  released_frame q o = (free_refines m kernel_heap kernel_heap-IsPlaced pre post k shows).1 q (
      omega
        (arith, o, shows.count, blocks_of m kernel_heap kernel_heap-IsPlaced pre (run k ∷ []) post))

  released-IsText : IsText m val n new → IsText released val n new
  released-IsText t = record {
    string = record {
      inside = λ j h e.
          t.string.inside j h (sym (released_frame (val + j) (omega (arith, t.off_table, h))) ∙ e);
      end = released_frame (val + n) (omega (arith, t.off_table)) ∙ t.string.end;
    };
    present = t.present;
    off_table = t.off_table;
    clear = t.clear;
    fits = t.fits;
  }

  -- The new text, and what the table shows when the string is destroyed.
  abbrev pub Assigned : Option (ℕ × Ram) → Type 0
  Assigned r =
      (m' : Ram) × (r ≡ some (new, m'))
      × IsString m' new n
      × ((j : ℕ) → j ≤ n → m' (new + j) ≡ m (val + j))
      × ((q : ℕ) → OffTable q → (q < new) ⊎ (new + n < q) → m' q ≡ m q)
      × Shows (string_destroy m' kernel_heap new) kernel_heap (pre ++ (gaps (suc k) ++ post))

  -- The assignment of a text to a string that has a block of its own ends. The old block is
  -- released first; the string is then a copy of the text, in a block that may be the old one; no
  -- byte outside the table and the new block is changed, the old text included; and when the string
  -- is destroyed then, both blocks are free. The heap gives the new block, and the text has an end
  -- and no byte in the table or in the new block: one that lies in the string itself may have.
  pub string_assign_lem :
      (fuel : ℕ)
      → IsText m val n new
      → n < fuel
      → new ≢ null
      → Assigned (string_assign fuel m kernel_heap old val)
  unfolding string_assign operator_delete_array
  string_assign_lem fuel t enough given =
      let (m', e, string, text, frame, shown, _) =
        string_lifetime released (pre ++ (gaps (suc k) ++ post)) released-Shows val n fuel
          (released-IsText t) enough given in
      let present : old ≢ null = omega arith in
      rw (==_false _ _ present) (
        m',
        e,
        string,
        λ j h. text j h ∙ released_frame (val + j) (omega (arith, t.off_table, h)),
        λ q o off. frame q o off ∙ released_frame q o,
        shown,
      )
