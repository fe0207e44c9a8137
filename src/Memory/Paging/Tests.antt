-- ===== src/Memory/Paging/Tests.antt =====
-- The page tables of a concrete memory.
use larva_os.Base.{
  ℕ, ◌+◌, ◌-◌, ◌*◌, ◌/◌, ◌%◌, ◌^◌, ◌<◌, ◌≡◌, refl, arith, ◌==◌, if◌then◌else◌, Ram, load32, ltb,
  leb, ◌&&◌, bit_and, ap, ◌∙◌, load32_of_bytes,
}
use larva_os.Base.Bits.{and_page}
use larva_os.Memory.Paging.{
  paging_set_entry_for_virtual_address, paging_get_entry_of_address, paging_map_virtual_memory,
}
use larva_os.Memory.Paging.Entries.{IsDirectory, table_at, get-set_entry, set_entry-IsDirectory}
use larva_os.Memory.Paging.Ranges.{MapsPage, map_virtual_memory_first_only}

-- A chunk at 4096, its directory at 8192, and the tables in the pages after it.
word : ℕ → ℕ
word a =
    if a == 4096 then 8192 else if leb 8192 a && ltb a 12288 then (3 + (a - 8192) / 4) * 4096 else 0

abbrev weight : ℕ → ℕ
weight r = if r == 0 then 1 else if r == 1 then 2 ^ 8 else if r == 2 then 2 ^ 16 else 2 ^ 24

abbrev tables : Ram
tables q = word (q - q % 4) / weight (q % 4) % 256

word-lt : (a : ℕ) → word a < 2 ^ 32
unfolding word
word-lt a = ground arith

byte-tables : (a k : ℕ) → a % 4 ≡ 0 → k < 4 → tables (a + k) ≡ word a / weight k % 256
byte-tables a k h small =
    let whole : a + k - (a + k) % 4 ≡ a = omega arith in
    let part : (a + k) % 4 ≡ k = omega arith in rw (whole, part)

load32-tables : (a : ℕ) → a % 4 ≡ 0 → load32 tables a ≡ word a
load32-tables a h =
    load32_of_bytes tables a (word a) (word-lt a)
      (ap tables (omega arith) ∙ (byte-tables a 0 h (omega arith) ∙ omega arith))
      (byte-tables a 1 h (omega arith)) (byte-tables a 2 h (omega arith))
      (byte-tables a 3 h (omega arith))

directory-tables : load32 tables 4096 ≡ 8192
directory-tables = load32-tables 4096 refl ∙ unfold word in refl

table_at-tables : (i : ℕ) → i < 1024 → table_at tables 4096 i ≡ (3 + i) * 4096
table_at-tables i h =
    ap (λ (t : ℕ). bit_and (load32 tables (t + 4 * i)) 0xfffff000) directory-tables
    ∙ (ap (λ (t : ℕ). bit_and t 0xfffff000) (load32-tables (8192 + 4 * i) (omega arith) ∙ entry)
        ∙ (and_page ((3 + i) * 4096) (omega arith) ∙ omega arith))
  where
    entry : word (8192 + 4 * i) ≡ (3 + i) * 4096
    entry = unfold word in ground arith

tables-IsDirectory : IsDirectory tables 4096
tables-IsDirectory = record {
  chunk_aligned = refl;
  directory_aligned = rw directory-tables;
  chunk_apart = omega (arith, directory-tables);
  table_chunk = λ i h. omega (arith, table_at-tables i h);
  table_directory = λ i h. omega (arith, table_at-tables i h, directory-tables);
  tables_apart = λ i j h k ne. omega (arith, table_at-tables i h, table_at-tables j k);
}

get-set_entry_example :
    ((paging_set_entry_for_virtual_address tables 4096 0x400000 7).0 ≡ 0)
    × (paging_get_entry_of_address
          (paging_set_entry_for_virtual_address tables 4096 0x400000 7).1
          4096
          0x401000
        ≡ paging_get_entry_of_address tables 4096 0x401000)
get-set_entry_example =
    get-set_entry tables 4096 tables-IsDirectory 0x400000 7 (omega arith) 0x401000 (omega arith)
      refl refl (omega arith)

-- Two pages are asked for, and one is mapped.
map_virtual_memory_first_only_example :
    MapsPage tables 4096 tables-IsDirectory 0x400000 0x7000 7
      (paging_map_virtual_memory tables 4096 0x400000 0x7000 0x9000 7)
map_virtual_memory_first_only_example =
    map_virtual_memory_first_only tables 4096 tables-IsDirectory 0x400000 0x7000 7 0x9000
      (omega arith) (omega arith) (omega arith) refl refl refl (omega arith)

set_entry-IsDirectory_example :
    IsDirectory (paging_set_entry_for_virtual_address tables 4096 0x400000 7).1 4096
set_entry-IsDirectory_example =
    set_entry-IsDirectory tables 4096 tables-IsDirectory 0x400000 7 (omega arith) refl
