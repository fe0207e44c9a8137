-- ===== src/Memory/Paging/Entries.antt =====
-- Reading and writing page table entries, for src/kernel/arch/x86/memory/paging.c.
use larva_os.Base.{
  ℕ, ◌+◌, ◌*◌, ◌/◌, ◌%◌, ◌^◌, ◌≤◌, ◌<◌, ◌≡◌, refl, ◌≢◌, ◌⊎◌, inl, inr, arith, bit_and, ◌==◌,
  if◌then◌else◌, Ram, load32, store32, load32-store32_self, load32-store32_ne, ==_iff, Bool-cases,
  ◌∙◌, ap,
}
use larva_os.Base.Bits.{and_split, and_mask, and-zero}
use larva_os.Memory.Paging.{
  page_size, paging_set_entry_for_virtual_address, paging_get_entry_of_address,
}

-- The page table that directory entry `i` names.
abbrev pub table_at : Ram → ℕ → ℕ → ℕ
table_at m page i = bit_and (load32 m (load32 m page + 4 * i)) 0xfffff000

-- The chunk, its directory and its 1024 tables lie in pages of their own, each table in another.
pub record IsDirectory (m : Ram) (page : ℕ) : Type 0 where
  pub chunk_aligned : page % page_size ≡ 0
  pub directory_aligned : load32 m page % page_size ≡ 0
  pub chunk_apart : load32 m page ≢ page
  pub table_chunk : (i : ℕ) → i < 1024 → table_at m page i ≢ page
  pub table_directory : (i : ℕ) → i < 1024 → table_at m page i ≢ load32 m page
  pub tables_apart : (i j : ℕ) → i < 1024 → j < 1024 → i ≢ j → table_at m page i ≢ table_at m page j

-- Directory and table index of an address.
abbrev pub dir_index : ℕ → ℕ
dir_index v = v / (1024 * 4096)

abbrev pub tab_index : ℕ → ℕ
tab_index v = v % (1024 * 4096) / 4096

page_mask : (x : ℕ) → bit_and x 0xfffff000 % page_size ≡ 0
page_mask x = ground (arith, and_split 12 x 0xfffff000, and_mask 20 (x / 4096), and-zero (x % 4096))

module _ (m : Ram) (page : ℕ) where
  abbrev pub slot : ℕ → ℕ
  slot v = table_at m page (dir_index v) + 4 * tab_index v

  set_aligned :
      (virt val : ℕ)
      → virt % page_size ≡ 0
      → paging_set_entry_for_virtual_address m page virt val ≡ (0, store32 m (slot virt) val)
  unfolding paging_set_entry_for_virtual_address
  set_aligned virt val h = rw ((==_iff _ _).1 h)

  pub get_aligned :
      (virt : ℕ)
      → virt % page_size ≡ 0
      → paging_get_entry_of_address m page virt ≡ load32 m (slot virt)
  unfolding paging_get_entry_of_address
  get_aligned virt h = rw ((==_iff _ _).1 h)

-- Words of different pages do not overlap.
other_page :
    (p q i j : ℕ)
    → p % page_size ≡ 0
    → q % page_size ≡ 0
    → p ≢ q
    → i < 1024
    → j < 1024
    → (q + 4 * j + 4 ≤ p + 4 * i) ⊎ (p + 4 * i + 4 ≤ q + 4 * j)
other_page p q i j hp hq ne hi hj = omega arith

module _ (m : Ram) (page : ℕ) (d : IsDirectory m page) where
  module _ (v val : ℕ) (in_space : v < 2 ^ 32) where
    abbrev after : Ram
    after = store32 m (slot m page v) val

    -- The chunk's word and the directory stay.
    chunk_kept : load32 after page ≡ load32 m page
    chunk_kept = load32-store32_ne m (slot m page v) val page (
        omega (
          arith,
          other_page (table_at m page (dir_index v)) page (tab_index v) 0 (page_mask _)
              d.chunk_aligned (d.table_chunk (dir_index v) (omega arith)) (omega arith)
              (omega arith),
        ))

    table_kept : (i : ℕ) → i < 1024 → table_at after page i ≡ table_at m page i
    table_kept i h =
        ap (λ (w : ℕ). bit_and w 0xfffff000)
          (ap (λ (w : ℕ). load32 after (w + 4 * i)) chunk_kept
            ∙ load32-store32_ne m (slot m page v) val (load32 m page + 4 * i) (
                other_page (table_at m page (dir_index v)) (load32 m page) (tab_index v) i
                  (page_mask (load32 m (load32 m page + 4 * dir_index v))) d.directory_aligned
                  (d.table_directory (dir_index v) (omega arith)) (omega arith) h))

    slot_kept : (w : ℕ) → w < 2 ^ 32 → slot after page w ≡ slot m page w
    slot_kept w h = ap (λ (t : ℕ). t + 4 * tab_index w) (table_kept (dir_index w) (omega arith))

    slots_apart :
        (w : ℕ)
        → w < 2 ^ 32
        → v % page_size ≡ 0
        → w % page_size ≡ 0
        → w ≢ v
        → (slot m page w + 4 ≤ slot m page v) ⊎ (slot m page v + 4 ≤ slot m page w)
    slots_apart w h hv hw ne = elim (Bool-cases (dir_index v == dir_index w)) [
      | inl e ↦
          let same : table_at m page (dir_index v) ≡ table_at m page (dir_index w) =
            ap (table_at m page) ((==_iff _ _).0 e) in
          let split : tab_index v ≢ tab_index w = λ t. ne (ground arith) in
          omega (arith, same, split)
      | inr e ↦
          other_page (table_at m page (dir_index v)) (table_at m page (dir_index w)) (tab_index v)
            (tab_index w) (page_mask (load32 m (load32 m page + 4 * dir_index v)))
            (page_mask (load32 m (load32 m page + 4 * dir_index w)))
            (d.tables_apart (dir_index v) (dir_index w) (omega arith) (omega arith) (ground arith))
            (omega arith) (omega arith)
    ]

    -- In a well-formed directory, setting the entry of one page returns 0 and changes what is read
    -- for that page and for no other.
    pub get-set_entry :
        (w : ℕ)
        → w < 2 ^ 32
        → v % page_size ≡ 0
        → w % page_size ≡ 0
        → val < 2 ^ 32
        → ((paging_set_entry_for_virtual_address m page v val).0 ≡ 0)
          × (paging_get_entry_of_address
                (paging_set_entry_for_virtual_address m page v val).1
                page
                w
              ≡ (if w == v then val else paging_get_entry_of_address m page w))
    get-set_entry w h hv hw fits =
        rw (set_aligned m page v val hv, get_aligned after page w hw, get_aligned m page w hw)
          (
            refl,
            elim (Bool-cases (w == v)) [
              | inl e ↦
                  rw (e, (==_iff w v).0 e)
                    (ap (load32 after) (slot_kept v in_space)
                      ∙ load32-store32_self m (slot m page v) val fits)
              | inr e ↦ rw e (
                  ap (load32 after) (slot_kept w h)
                  ∙ load32-store32_ne m (slot m page v) val (slot m page w)
                      (slots_apart w h hv hw (ground arith)))
            ],
          )

    -- A well-formed directory is well-formed after the entry of a page has been set.
    pub set_entry-IsDirectory :
        v % page_size ≡ 0 → IsDirectory (paging_set_entry_for_virtual_address m page v val).1 page
    set_entry-IsDirectory hv = rw (set_aligned m page v val hv) (record {
      chunk_aligned = d.chunk_aligned;
      directory_aligned = rw chunk_kept d.directory_aligned;
      chunk_apart = rw chunk_kept d.chunk_apart;
      table_chunk = λ i h. rw (table_kept i h) (d.table_chunk i h);
      table_directory = λ i h. rw (table_kept i h, chunk_kept) (d.table_directory i h);
      tables_apart = λ i j h k ne. rw (table_kept i h, table_kept j k) (d.tables_apart i j h k ne);
    })
