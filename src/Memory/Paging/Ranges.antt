-- ===== src/Memory/Paging/Ranges.antt =====
-- Mapping pages and ranges of pages, for src/kernel/arch/x86/memory/paging.c.
use larva_os.Base.{
  ℕ, zero, suc, ◌+◌, ◌-◌, ◌/◌, ◌%◌, ◌^◌, ◌≤◌, ◌<◌, ◌≡◌, ◌≢◌, ◌⊎◌, inl, inr, arith, bit_or, sub32,
  neg32, einval, ◌==◌, if◌then◌else◌, Ram, ==_iff, ltb-false, Bool-cases,
}
use larva_os.Base.Bits.{or_page}
use larva_os.Memory.Paging.{
  page_size, paging_set_entry_for_virtual_address, paging_get_entry_of_address, paging_map_page,
  paging_map_memory_by_range, paging_map_virtual_memory, paging_align_address,
}
use larva_os.Memory.Paging.Entries.{IsDirectory, get-set_entry}

map_page_aligned :
    (m : Ram) (page virt phys flags : ℕ)
    → virt % page_size ≡ 0
    → phys % page_size ≡ 0
    → paging_map_page m page virt phys flags
      ≡ paging_set_entry_for_virtual_address m page virt (bit_or phys flags)
unfolding paging_map_page
map_page_aligned m page virt phys flags hv hp = rw ((==_iff _ _).1 hv, (==_iff _ _).1 hp)

-- The loop is left in its first round where that maps its page.
range_first :
    (m : Ram) (page virt phys n flags res : ℕ)
    → 0 < n
    → (paging_map_page m page virt phys flags).0 ≡ 0
    → paging_map_memory_by_range m page virt phys n flags res
      ≡ paging_map_page m page virt phys flags
unfolding paging_map_memory_by_range
range_first m page virt phys zero flags res pos done = absurd (omega arith)
range_first m page virt phys (suc n) flags res pos done = rw ((==_iff _ _).1 done)

map_virtual_first :
    (m : Ram) (page virt phys phys_end flags : ℕ)
    → virt % page_size ≡ 0
    → phys % page_size ≡ 0
    → phys_end % page_size ≡ 0
    → phys < phys_end
    → phys_end < 2 ^ 32
    → (paging_map_page m page virt phys flags).0 ≡ 0
    → paging_map_virtual_memory m page virt phys phys_end flags
      ≡ paging_map_page m page virt phys flags
unfolding paging_map_virtual_memory
map_virtual_first m page virt phys phys_end flags av ap ae lt he done =
    rw
      (
        (==_iff _ _).1 av,
        (==_iff _ _).1 ap,
        (==_iff _ _).1 ae,
        ltb-false phys_end phys (omega arith),
      )
      (range_first m page virt phys (sub32 phys_end phys / page_size) flags 0 (omega arith) done)

module _ (m : Ram) (page : ℕ) (d : IsDirectory m page) (virt phys flags : ℕ) where
  -- What a mapping call that has mapped the one page at `virt` leaves.
  abbrev pub MapsPage : ℕ × Ram → Type 0
  MapsPage out =
      (out.0 ≡ 0)
      × ((w : ℕ)
          → w < 2 ^ 32
          → w % page_size ≡ 0
          → paging_get_entry_of_address out.1 page w
            ≡ (if w == virt then phys + flags else paging_get_entry_of_address m page w))

  map_page-MapsPage :
      virt < 2 ^ 32
      → phys < 2 ^ 32
      → flags < page_size
      → virt % page_size ≡ 0
      → phys % page_size ≡ 0
      → MapsPage (paging_map_page m page virt phys flags)
  map_page-MapsPage hv hp hf av ap =
      let fits : phys + flags < 2 ^ 32 = omega arith in
      let wrote = get-set_entry m page d virt (phys + flags) hv in
      rw (map_page_aligned m page virt phys flags av ap, or_page phys flags ap hf)
        ((wrote virt hv av av fits).0, λ w h aw. (wrote w h av aw fits).1)

  -- paging_map_page refuses an address off a page boundary and changes nothing then. Otherwise
  -- the entry of the page is the frame with the flags, and no other page's entry changes.
  pub map_page_lem :
      virt < 2 ^ 32
      → phys < 2 ^ 32
      → flags < page_size
      → (((virt % page_size ≢ 0) ⊎ (phys % page_size ≢ 0))
          × (paging_map_page m page virt phys flags ≡ (neg32 einval, m)))
        ⊎ ((virt % page_size ≡ 0)
            × (phys % page_size ≡ 0)
            × MapsPage (paging_map_page m page virt phys flags))
  map_page_lem hv hp hf = elim (Bool-cases (virt % page_size == 0)) [
    | inr e ↦ inl (inl (ground arith), unfold paging_map_page in rw e)
    | inl e ↦ elim (Bool-cases (phys % page_size == 0)) [
      | inr f ↦ inl (inr (ground arith), unfold paging_map_page in rw (e, f))
      | inl f ↦
          let av = (==_iff _ _).0 e in
          let ap = (==_iff _ _).0 f in inr (av, ap, map_page-MapsPage hv hp hf av ap)
    ]
  ]

  -- With all three addresses on page boundaries and a range of at least one page, the call
  -- returns 0 and has mapped the first page alone: the loop is left at the first success.
  pub map_virtual_memory_first_only :
      (phys_end : ℕ)
      → virt < 2 ^ 32
      → phys_end < 2 ^ 32
      → flags < page_size
      → virt % page_size ≡ 0
      → phys % page_size ≡ 0
      → phys_end % page_size ≡ 0
      → phys < phys_end
      → MapsPage (paging_map_virtual_memory m page virt phys phys_end flags)
  map_virtual_memory_first_only phys_end hv he hf av ap ae lt =
      let one = map_page-MapsPage hv (omega arith) hf av ap in
      rw (map_virtual_first m page virt phys phys_end flags av ap ae lt he one.0) one

-- An address off a page boundary, and an end before the start, are refused, and the memory is
-- unchanged.
pub map_virtual_memory_refuses :
    (m : Ram) (page virt phys phys_end flags : ℕ)
    → (virt % page_size ≢ 0)
      ⊎ (phys % page_size ≢ 0)
      ⊎ (phys_end % page_size ≢ 0)
      ⊎ (phys_end < phys)
    → paging_map_virtual_memory m page virt phys phys_end flags ≡ (neg32 einval, m)
unfolding paging_map_virtual_memory
map_virtual_memory_refuses m page virt phys phys_end flags h = ground arith

-- Rounding up gives the first page boundary at or above the address; in the last page of the
-- address space it wraps to 0.
pub align_address_lem :
    (ptr : ℕ)
    → ptr < 2 ^ 32
    → (paging_align_address ptr % page_size ≡ 0)
      × (((ptr ≤ paging_align_address ptr) × (paging_align_address ptr < ptr + page_size))
          ⊎ ((2 ^ 32 - page_size < ptr) × (paging_align_address ptr ≡ 0)))
unfolding paging_align_address
align_address_lem ptr h = (ground arith, ground arith)
