-- ===== src/Core/Strings/Tests.antt =====
-- Strings on a heap that is empty and on one that is full, for src/kernel/core/string.cc.
use larva_os.Base.{
  ℕ, zero, suc, ◌+◌, ◌≤◌, ◌<◌, ◌≡◌, refl, inl, inr, sym, ap, ◌∙◌, arith, Bool, true, false, null,
  some, List, [], ◌∷◌, ◌++◌, ◌==◌, Ram, if◌then◌else◌, ltb, leb, ◌&&◌, at,
}
use larva_os.Libc.Strings.Length.{IsString}
use larva_os.Memory.Heap.Layout.{Layout-gaps, Chunk, Tail, blocks, gap, gaps, run}
use larva_os.Memory.Heap.Refine.{Shows}
use larva_os.Memory.Heap.Search.{FreeRun, IsFree-zero}
use larva_os.Disk.Stream.Round.{ltb-cases}
use larva_os.Memory.Heap.Requests.{malloc_refines}
use larva_os.Memory.Kheap.{kmalloc}
use larva_os.Memory.Kheap.Booted.{booted, booted-Shows, dirty}
use larva_os.Memory.Kheap.Laws.{kernel_heap, kernel_heap-IsPlaced, kheap_init_lem}
use larva_os.Core.Strings.{string_assign, string_of_chars}
use larva_os.Core.Strings.Assign.{Assigned, new, released, released-Shows, string_assign_lem}
use larva_os.Core.Strings.Lifetime.{Lives, string_at_null, string_lifetime}

-- The bytes 1 to 6 and a 0 stand at 4096 of the memory as the firmware leaves it.
dirty-IsString : IsString dirty 4096 6
dirty-IsString = record { inside = λ j h. omega (arith, h); end = refl }

kept : (j : ℕ) → j ≤ 6 → booted (4096 + j) ≡ dirty (4096 + j)
kept j h = (kheap_init_lem dirty kernel_heap).3 (4096 + j) (omega (arith, h))

pub booted-IsString : IsString booted 4096 6
booted-IsString = record {
  inside = λ j h e. dirty-IsString.inside j h (sym (kept j (omega (arith, h))) ∙ e);
  end = kept 6 (omega arith) ∙ dirty-IsString.end;
}

-- A heap whose first block is free gives this one.
first_given :
    (m : Ram) (cs : List Chunk)
    → Shows m kernel_heap (gap ∷ cs)
    → (kmalloc m kernel_heap 7).0 ≡ 0x1000000
unfolding kmalloc
first_given m cs shows =
    elim (malloc_refines m kernel_heap kernel_heap-IsPlaced (gap ∷ cs) 7 shows (omega arith)
      (omega arith)) [
        | inl a ↦ elim (ltb-cases 0 (blocks a.pre)) [
          | inl later ↦ absurd (a.first 0 later first_free)
          | inr none_before ↦ omega (arith, a.address, none_before)
        ]
        | inr r ↦ absurd (r.full 0 (omega arith) first_free)
      ]
  where
    first_free : FreeRun m 0x7e00 0 1
    first_free j low high =
        let free : m (at 0x7e00 j) ≡ 0 = ap m (omega (arith, high)) ∙ shows.layout.0 in
        IsFree-zero m 0x7e00 j free

pub given : (kmalloc booted kernel_heap 7).0 ≡ 0x1000000
given = first_given booted (gaps 25599) booted-Shows

string_lifetime_example :
    Lives booted
      (gaps 25600)
      booted-Shows
      4096
      6
      (kmalloc booted kernel_heap 7).0
      (string_of_chars 7 booted kernel_heap 4096)
string_lifetime_example =
    string_lifetime booted (gaps 25600) booted-Shows 4096 6 7
      (record {
        string = booted-IsString;
        present = omega arith;
        off_table = inl (omega arith);
        clear = inr (omega (arith, given));
        fits = omega arith;
      })
      (omega arith) (omega (arith, given))

-- A heap that one allocation fills.
abbrev full : Ram
full q =
    if leb 0x7e00 q && ltb q 0xe200
    then (if q == 0x7e00 then 0xc1 else if q == 0xe1ff then 0x01 else 0x81)
    else dirty q

full-Tail : (k i : ℕ) → 0 < i → i + k ≡ 25600 → Tail full 0x7e00 i k
full-Tail zero i pos e = tt
full-Tail (suc k) i pos e =
    (ground (arith, pos, e), full-Tail k (i + 1) (omega arith) (omega (arith, e)))

full-Shows : Shows full kernel_heap (run 25599 ∷ [])
full-Shows = record { layout = (refl, full-Tail 25599 1 (omega arith) refl, tt); count = refl }

has_gap : List Chunk → Bool
has_gap [] = false
has_gap (gap ∷ cs) = true
has_gap (run n ∷ cs) = has_gap cs

has_gap-middle : (pre post : List Chunk) → has_gap (pre ++ (gap ∷ post)) ≡ true
unfolding has_gap
has_gap-middle [] post = refl
has_gap-middle (gap ∷ cs) post = refl
has_gap-middle (run n ∷ cs) post = has_gap-middle cs post

nothing_left : (kmalloc full kernel_heap 7).0 ≡ null
unfolding kmalloc has_gap
nothing_left =
    elim (malloc_refines full kernel_heap kernel_heap-IsPlaced (run 25599 ∷ []) 7 full-Shows
      (omega arith) (omega arith)) [
        | inl a ↦ cc (ap has_gap a.before, has_gap-middle a.pre a.post)
        | inr r ↦ rw r.nothing refl
      ]

string_at_null_example :
    (m' : Ram) × (string_of_chars 7 full kernel_heap 4096 ≡ some (null, m'))
    × ((j : ℕ) → j ≤ 6 → m' j ≡ full (4096 + j))
    × ((q : ℕ) → 6 < q → m' q ≡ full q)
string_at_null_example =
    string_at_null full (run 25599 ∷ []) full-Shows 4096 6 7
      (record {
        string = record { inside = λ j h. ground (arith, h); end = refl };
        present = omega arith;
        off_table = inl (omega arith);
        clear = inl (omega arith);
        fits = omega arith;
      })
      (omega arith) nothing_left

-- A heap whose first block has a text.
abbrev one_text : Ram
one_text q = if leb 0x7e00 q && ltb q 0xe200 then (if q == 0x7e00 then 0x41 else 0) else dirty q

one_text-Shows : Shows one_text kernel_heap (run 0 ∷ gaps 25599)
one_text-Shows = record {
  layout = (refl, tt, Layout-gaps one_text 0x7e00 25599 1 (λ k p q. ground (arith, p, q)));
  count = refl;
}

new_block : new one_text [] (gaps 25599) 0 one_text-Shows 4096 6 ≡ 0x1000000
new_block =
    first_given (released one_text [] (gaps 25599) 0 one_text-Shows 4096 6) (gaps 25599)
      (released-Shows one_text [] (gaps 25599) 0 one_text-Shows 4096 6)

string_assign_lem_example :
    Assigned one_text []
      (gaps 25599)
      0
      one_text-Shows
      4096
      6
      (string_assign 7 one_text kernel_heap 0x1000000 4096)
string_assign_lem_example =
    string_assign_lem one_text [] (gaps 25599) 0 one_text-Shows 4096 6 7
      (record {
        string = record { inside = λ j h. ground (arith, h); end = refl };
        present = omega arith;
        off_table = inl (omega arith);
        clear = inr (omega (arith, new_block));
        fits = omega arith;
      })
      (omega arith) (omega (arith, new_block))
