-- ===== src/Memory/Paging.antt =====
-- Two-level page tables, src/kernel/arch/x86/memory/paging.c.
-- A `struct paging_4GB_chunk` is the address of one word, which points at the directory. Directory
-- and tables are arrays of 1024 words. `paging_load_directory` sets the register cr3.
mod Tests
pub mod Entries
pub mod Ranges
pub mod Space
pub mod Identity
use larva_os.Base.{
  ℕ, zero, suc, ◌+◌, ◌-◌, ◌*◌, ◌/◌, ◌%◌, ◌^◌, Bool, true, false, ◌||◌, not, bit_and, bit_or, u32,
  sub32, neg32, is_neg, ltb, ◌==◌, if◌then◌else◌, Ram, load32, store32, null, einval,
}
use larva_os.Memory.Heap.{Heap}
use larva_os.Memory.Kheap.{kzalloc, kfree}

abbrev pub total_entries_per_table : ℕ
total_entries_per_table = 1024

abbrev pub page_size : ℕ
page_size = 4096

abbrev pub is_writeable : ℕ
is_writeable = 0b00000010

-- The two static variables and the register.
pub record Directories : Type 0 where
  pub kernel_directory : ℕ
  pub current_directory : ℕ
  pub cr3 : ℕ

unfoldable pub switch_to_page : Ram → ℕ → Directories → Directories
switch_to_page m directory d = record d {
  cr3 = load32 m directory;
  current_directory = load32 m directory;
}

unfoldable pub switch_to_kernel_page : Ram → Directories → Directories
unfolding switch_to_page
switch_to_kernel_page m d = switch_to_page m d.kernel_directory d

unfoldable pub paging_install_kernel_page : ℕ → Directories → Directories
paging_install_kernel_page kernel_page d =
    if d.kernel_directory == null then record d { kernel_directory = kernel_page } else d

paging_check_address_is_aligned : ℕ → Bool
paging_check_address_is_aligned addr = addr % page_size == 0

-- The result and the two indexes, which an unaligned address leaves as they were.
paging_get_indexes : ℕ → ℕ → ℕ → ℕ × ℕ × ℕ
unfolding paging_check_address_is_aligned
paging_get_indexes virtual_address directory_index table_index =
    if not (paging_check_address_is_aligned virtual_address)
    then (neg32 einval, directory_index, table_index)
    else (
      0,
      virtual_address / (total_entries_per_table * page_size),
      virtual_address % (total_entries_per_table * page_size) / page_size,
    )

pub paging_set_entry_for_virtual_address : Ram → ℕ → ℕ → ℕ → ℕ × Ram
unfolding paging_get_indexes
paging_set_entry_for_virtual_address m page virtual_address val =
    if not (paging_check_address_is_aligned virtual_address)
    then (neg32 einval, m)
    else (let (res, directory_index, table_index) = paging_get_indexes virtual_address 0 0 in
        if is_neg res
        then (res, m)
        else (let entry = load32 m (load32 m page + 4 * directory_index) in
            let table = bit_and entry 0xfffff000 in (0, store32 m (table + 4 * table_index) val)))

pub paging_get_entry_of_address : Ram → ℕ → ℕ → ℕ
unfolding paging_get_indexes
paging_get_entry_of_address m page virt =
    let (_, dir_index, table_index) = paging_get_indexes virt 0 0 in
    let entry = load32 m (load32 m page + 4 * dir_index) in
    let table = bit_and entry 0xfffff000 in load32 m (table + 4 * table_index)

-- `entry[j] = (offset + j * PAGING_PAGE_SIZE) | flags`, with `left` rounds to go.
pub fill_table : Ram → ℕ → ℕ → ℕ → ℕ → ℕ → Ram
fill_table m entry offset flags zero j = m
fill_table m entry offset flags (suc left) j =
    fill_table (store32 m (entry + 4 * j) (bit_or (u32 (offset + j * page_size)) flags)) entry
      offset flags left (j + 1)

-- The page tables of the directory, with `left` to make.
pub make_tables : Ram → Heap → ℕ → ℕ → ℕ → ℕ → ℕ → Ram
make_tables m heap directory flags zero i offset = m
make_tables m heap directory flags (suc left) i offset =
    let (entry, m1) = kzalloc m heap (4 * total_entries_per_table) in
    let m2 = fill_table m1 entry offset flags total_entries_per_table 0 in
    let offset' = u32 (offset + total_entries_per_table * page_size) in
    let m3 = store32 m2 (directory + 4 * i) (bit_or (bit_or entry flags) is_writeable) in
    make_tables m3 heap directory flags left (i + 1) offset'

unfoldable pub make_new_4GB_virtual_memory_address_space : Ram → Heap → ℕ → ℕ × Ram
make_new_4GB_virtual_memory_address_space m heap flags =
    let (directory, m1) = kzalloc m heap (4 * total_entries_per_table) in
    let m2 = make_tables m1 heap directory flags total_entries_per_table 0 0 in
    let (chunk_4gb, m3) = kzalloc m2 heap 4 in (chunk_4gb, store32 m3 chunk_4gb directory)

-- `kfree` of each page table, with `left` to go.
free_tables : Ram → Heap → ℕ → ℕ → ℕ → Ram
free_tables m heap page zero i = m
free_tables m heap page (suc left) i =
    let entry = load32 m (load32 m page + 4 * i) in
    free_tables (kfree m heap (bit_and entry 0xfffff000)) heap page left (i + 1)

unfoldable pub release_4GB_virtual_memory_address_space : Ram → Heap → ℕ → Ram
unfolding free_tables
release_4GB_virtual_memory_address_space m heap page =
    let m1 = free_tables m heap page 1024 0 in
    let m2 = kfree m1 heap (load32 m1 page) in kfree m2 heap page

pub paging_map_page : Ram → ℕ → ℕ → ℕ → ℕ → ℕ × Ram
paging_map_page m page virt phys flags =
    if not (virt % page_size == 0) || not (phys % page_size == 0)
    then (neg32 einval, m)
    else paging_set_entry_for_virtual_address m page virt (bit_or phys flags)

-- The loop with `left` rounds to go and the result of the round before. It is left when a page has
-- been mapped with result 0.
paging_map_memory_by_range : Ram → ℕ → ℕ → ℕ → ℕ → ℕ → ℕ → ℕ × Ram
paging_map_memory_by_range m page virt phys zero flags res = (res, m)
paging_map_memory_by_range m page virt phys (suc left) flags res =
    let (res', m') = paging_map_page m page virt phys flags in
    let rest =
      paging_map_memory_by_range m' page (u32 (virt + page_size)) (u32 (phys + page_size)) left
        flags res' in
    if res' == 0 then (res', m') else rest

pub paging_map_virtual_memory : Ram → ℕ → ℕ → ℕ → ℕ → ℕ → ℕ × Ram
paging_map_virtual_memory m page virt phys phys_end flags =
    if not (virt % page_size == 0)
    then (neg32 einval, m)
    else if not (phys % page_size == 0)
    then (neg32 einval, m)
    else if not (phys_end % page_size == 0)
    then (neg32 einval, m)
    else if ltb phys_end phys
    then (neg32 einval, m)
    else (let total_bytes = sub32 phys_end phys in
        let total_pages = total_bytes / page_size in
        paging_map_memory_by_range m page virt phys total_pages flags 0)

pub paging_align_address : ℕ → ℕ
paging_align_address ptr =
    let unaligned_addresses_size = ptr % page_size in
    if ltb 0 unaligned_addresses_size then u32 (ptr + page_size - unaligned_addresses_size) else ptr
