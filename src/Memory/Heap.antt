-- ===== src/Memory/Heap.antt =====
-- The block allocator, src/kernel/arch/x86/memory/heap.c. The table of a heap holds one byte for
-- each block of 4096 bytes: 0 for a free block, and for a taken one 1 with flags for the first
-- block of an allocation and for a block with a successor. Table and blocks lie in the memory
-- `Ram`; a function that writes there returns the new memory.
pub mod Create
pub mod Layout
pub mod Clear
pub mod Marks
pub mod Refine
pub mod Release
pub mod Search
pub mod Requests
pub mod RoundTrip
pub mod Small
pub mod Split
mod Tests
use larva_os.Base.{
  ℕ, zero, suc, ◌+◌, ◌-◌, ◌*◌, ◌/◌, ◌%◌, ◌^◌, Bool, true, false, ◌||◌, not, bit_and, bit_or, u8,
  u32, sub32, neg32, is_neg, sdiv, slt, ltb, ◌==◌, if◌then◌else◌, Ram, write, at, null, enomem,
  einval,
}
use larva_os.Libc.Memory.{memset}

abbrev pub block_size : ℕ
block_size = 4096

abbrev pub entry_free : ℕ
entry_free = 0x00

abbrev pub entry_taken : ℕ
entry_taken = 0x01

abbrev pub has_next : ℕ
has_next = 0b10000000

abbrev pub is_first : ℕ
is_first = 0b01000000

pub record HeapTable : Type 0 where
  pub entries : ℕ
  pub total : ℕ

pub record Heap : Type 0 where
  pub table : HeapTable
  pub start_address : ℕ

pub heap_validate_alignment : ℕ → Bool
heap_validate_alignment ptr = ptr % block_size == 0

pub heap_validate_table : ℕ → ℕ → HeapTable → ℕ
heap_validate_table start end table =
    let table_size = sub32 end start in
    let total_block = table_size / block_size in
    if not (table.total == total_block) then neg32 einval else 0

unfoldable pub align_value_to_upper : ℕ → ℕ
align_value_to_upper value =
    let remainder = value % block_size in
    if remainder == 0 then value else u32 (value - remainder + block_size)

unfoldable pub heap_get_entry_type : ℕ → ℕ
heap_get_entry_type entry = bit_and entry 0x0f

unfoldable pub block_entry_is_free : ℕ → Bool
unfolding heap_get_entry_type
block_entry_is_free entry = heap_get_entry_type entry == entry_free

-- The result, the heap and the memory after the call. The caller's `struct heap_table` is held by
-- value, since nothing changes it.
pub heap_create : Ram → Heap → ℕ → ℕ → HeapTable → ℕ × Heap × Ram
unfolding heap_validate_alignment heap_validate_table
heap_create m heap start end table =
    if not (heap_validate_alignment start) || not (heap_validate_alignment end)
    then (neg32 einval, heap, m)
    else (let heap' : Heap = record { table = table; start_address = start } in
        let result = heap_validate_table start end table in
        if is_neg result
        then (result, heap', m)
        else (result, heap', memset m table.entries entry_free (u32 (1 * table.total))))

-- `num > table->total - 1` compares as `size_t`.
unfoldable pub get_physical_address_from_block_number : Heap → ℕ → ℕ
get_physical_address_from_block_number heap num =
    if is_neg num || ltb (sub32 heap.table.total 1) num
    then null
    else u32 (heap.start_address + num * block_size)

unfoldable pub get_block_number_from_physical_address : Heap → ℕ → ℕ
get_block_number_from_physical_address heap address =
    sdiv (sub32 address heap.start_address) block_size

-- `for (i = start + 1; i <= end; i++)` with `left` rounds to go.
unfoldable pub take_rest : Ram → ℕ → ℕ → ℕ → ℕ → Ram
take_rest m entries end zero i = m
take_rest m entries end (suc left) i =
    let p = at entries i in
    let m1 = write m p entry_taken in
    let m2 = if i == end then m1 else write m1 p (bit_or (m1 p) has_next) in
    take_rest m2 entries end left (i + 1)

unfoldable pub mark_blocks_taken : Ram → Heap → ℕ → ℕ → ℕ × Ram
unfolding take_rest
mark_blocks_taken m heap start_block_number size =
    let entries = heap.table.entries in
    let last = sub32 heap.table.total 1 in
    if ltb last start_block_number
    then (neg32 einval, m)
    else (let end = sub32 (start_block_number + size) 1 in
        let end_block_number = if ltb last end then last else end in
        let p = at entries start_block_number in
        let m1 = write m p (bit_or entry_taken is_first) in
        let m2 = if slt 1 size then write m1 p (bit_or (m1 p) has_next) else m1 in
        let rounds = if is_neg end_block_number then 0 else end_block_number - start_block_number in
        (0, take_rest m2 entries end_block_number rounds (start_block_number + 1)))

-- The walk back to the first block of an allocation. It tests `entries[num]` in each round.
pub find_first : Ram → ℕ → ℕ → ℕ → ℕ
find_first m entries num zero = 0
find_first m entries num (suc k) =
    let earlier = find_first m entries num k in
    if not (bit_and (m (at entries num)) is_first == 0) then suc k else earlier

-- `for (i = first; i < table->total; i++)` with `left` rounds to go.
pub clear_run : Ram → ℕ → ℕ → ℕ → Ram
clear_run m entries zero i = m
clear_run m entries (suc left) i =
    let entry = m (at entries i) in
    let m' = write m (at entries i) entry_free in
    let rest = clear_run m' entries left (i + 1) in if bit_and entry has_next == 0 then m' else rest

pub mark_blocks_free : Ram → Heap → ℕ → Ram
unfolding find_first clear_run
mark_blocks_free m heap num =
    let entries = heap.table.entries in
    let first_block_number = find_first m entries num num in
    clear_run m entries (heap.table.total - first_block_number) first_block_number

-- The loop of `get_free_blocks` at index `i`, with `left` rounds to go: the counter and the block
-- number at its end.
unfoldable pub scan : Ram → ℕ → ℕ → ℕ → ℕ → ℕ → ℕ → ℕ × ℕ
scan m entries size zero i count block = (count, block)
scan m entries size (suc left) i count block =
    let block' = if block == neg32 enomem then i else block in
    let count' = u32 (count + 1) in
    let after_free = scan m entries size left (i + 1) count' block' in
    let after_taken = scan m entries size left (i + 1) 0 (neg32 enomem) in
    if block_entry_is_free (m (at entries i))
    then (if count' == size then (count', block') else after_free)
    else after_taken

unfoldable pub get_free_blocks : Ram → Heap → ℕ → ℕ
unfolding scan block_entry_is_free
get_free_blocks m heap size =
    let (count, block) = scan m heap.table.entries size heap.table.total 0 0 (neg32 enomem) in
    if not (count == size) then neg32 enomem else block

unfoldable pub malloc_blocks : Ram → Heap → ℕ → ℕ × Ram
malloc_blocks m heap size =
    let start_block = get_free_blocks m heap size in
    if is_neg start_block
    then (null, m)
    else (let address = get_physical_address_from_block_number heap start_block in
        let (_, m') = mark_blocks_taken m heap start_block size in (address, m'))

unfoldable pub malloc : Ram → Heap → ℕ → ℕ × Ram
malloc m heap size =
    let aligned_size = align_value_to_upper size in
    let total_blocks = aligned_size / block_size in malloc_blocks m heap total_blocks

pub free : Ram → Heap → ℕ → Ram
free m heap ptr = mark_blocks_free m heap (get_block_number_from_physical_address heap ptr)
