-- ===== src/Fat16.antt =====
-- The FAT16 file system, src/kernel/arch/x86/fs/fat16.c. Its structures stand in the memory at the
-- offsets of their members. This file has the structures, names and the functions of an open file
-- that do not reach the disk; Clusters has the file allocation table and reading, Directories the
-- directories and opening a file, Volume the recognition of a volume.
pub mod Chains
pub mod Clusters
pub mod Directories
pub mod Directory
pub mod Disk
pub mod Item
pub mod Names
pub mod Private
pub mod Reads
pub mod Seek
mod Tests
pub mod Volume
pub mod Words
use larva_os.Base.{
  ℕ, zero, suc, ◌+◌, ◌-◌, ◌*◌, ◌/◌, ◌%◌, ◌^◌, Bool, ◌||◌, ◌&&◌, not, if◌then◌else◌, ◌==◌, leb,
  bit_and, bit_or, u8, u16, u32, sub32, sdiv, neg32, einval, eio, null, Ram, write, load32, store32,
  Option, none, some, ◌>>=◌,
}
use larva_os.Libc.Memory.{memset}
use larva_os.Libc.Strings.{strcpy}
use larva_os.Memory.Heap.{Heap}
use larva_os.Memory.Kheap.{kfree}
use larva_os.Disk.{Ports}
use larva_os.Disk.Stream.{disk_stream_read}
use larva_os.Fat16.Directory
use larva_os.Fat16.Item
use larva_os.Fat16.Private
use larva_os.Fat16.Words.{load16, store16}

abbrev pub fat16_signature : ℕ
fat16_signature = 0x29

abbrev pub fat16_fat_entry_size : ℕ
fat16_fat_entry_size = 0x02

abbrev pub fat16_bad_sector : ℕ
fat16_bad_sector = 0xff7

abbrev pub fat_item_type_directory : ℕ
fat_item_type_directory = 0

abbrev pub fat_item_type_file : ℕ
fat_item_type_file = 1

abbrev pub fat_file_read_only : ℕ
fat_file_read_only = 0x01

abbrev pub fat_file_subdirectory : ℕ
fat_file_subdirectory = 0x10

abbrev pub file_stat_read_only : ℕ
file_stat_read_only = 0x01

abbrev pub seek_set : ℕ
seek_set = 0

abbrev pub seek_cur : ℕ
seek_cur = 1

-- What every call that reaches the disk needs: the ports, the answers a drive is given to be ready,
-- the addresses of the one disk and of the buffers on the stack of disk_stream_read with their
-- number, the kernel heap, and the addresses of the locals `item`, `result` and `tmp_filename`.
pub record Machine (Drive : Type 0) : Type 0 where
  pub ports : Ports Drive
  pub delay : ℕ
  pub disk_address : ℕ
  pub tmp_buf : ℕ → ℕ
  pub depth : ℕ
  pub heap : Heap
  pub item : ℕ
  pub result : ℕ
  pub tmp_filename : ℕ

-- disk_stream_read on such a machine.
abbrev pub read_stream :
    {Drive : Type 0} → Machine Drive → Drive → Ram → ℕ → ℕ → ℕ → Option (ℕ × Drive × Ram)
read_stream k d m stream buf total =
    disk_stream_read k.ports k.delay k.disk_address k.tmp_buf k.depth d m stream buf total

-- The loop of fat16_to_proper_string, with `left` rounds before it has seen the whole input.
unfoldable pub copy_name : Ram → ℕ → ℕ → ℕ → ℕ × Ram
copy_name m out source zero = (out, m)
copy_name m out source (suc left) =
    let rest = copy_name (write m out (m source)) (out + 1) (source + 1) left in
    if (m source == 0x00) || (m source == 0x20) then (out, m) else rest

-- The pointer that `*out` gets, and the memory. `size` is not 0.
unfoldable pub fat16_to_proper_string : Ram → ℕ → ℕ → ℕ → ℕ × Ram
unfolding copy_name
fat16_to_proper_string m out source size =
    let (out', m') = copy_name m out source size in (out', write m' out' 0x00)

unfoldable pub fat16_get_full_relative_filename : Ram → ℕ → ℕ → ℕ → Ram
unfolding fat16_to_proper_string
fat16_get_full_relative_filename m item out max_len =
    let m1 = memset m out 0x00 max_len in
    let (out_tmp, m2) = fat16_to_proper_string m1 out item 8 in
    let with_ext =
      (fat16_to_proper_string (write m2 out_tmp b'.') (out_tmp + 1) (Item.ext item) 3).1 in
    let first = m2 (Item.ext item) in
    if not (first == 0x00) && not (first == 0x20) then with_ext else m2

-- The two halves are not shifted.
unfoldable pub fat16_get_first_cluster : Ram → ℕ → ℕ
fat16_get_first_cluster m item =
    bit_or (load16 m (Item.high_16_bits_first_cluster item))
      (load16 m (Item.low_16_bits_first_cluster item))

unfoldable pub fat16_cluster_to_sector : Ram → ℕ → ℕ → ℕ
fat16_cluster_to_sector m private cluster = u32 (
    load32 m (Directory.ending_sector_pos (Private.root_dir private))
    + u32 (sub32 cluster 2 * Private.sectors_per_cluster m private))

-- A `struct fat_file_descriptor` is `item` and `pos`, a `struct fat_item` is a pointer and `type`.
unfoldable pub fat16_seek : Ram → ℕ → ℕ → ℕ → ℕ × Ram
fat16_seek m p offset seek_mode =
    let desc_item = load32 m p in
    let item = load32 m desc_item in
    if not (load32 m (desc_item + 4) == fat_item_type_file)
    then (neg32 einval, m)
    else if leb (load32 m (Item.filesize item)) offset
    then (neg32 eio, m)
    else if seek_mode == seek_set
    then (0, store32 m (p + 4) offset)
    else if seek_mode == seek_cur
    then (0, store32 m (p + 4) (u32 (load32 m (p + 4) + offset)))
    else (neg32 einval, m)

-- The members of a `struct file_stat` behind the two names.
unfoldable pub fill_stat : Ram → ℕ → ℕ → Ram
fill_stat m item stat =
    let attribute =
      if not (bit_and (m (Item.attribute item)) fat_file_read_only == 0)
      then bit_or (m (stat + 15)) file_stat_read_only
      else 0x00 in
    let m1 = write m (stat + 15) attribute in
    let m2 = write m1 (stat + 16) (m1 (item + 12)) in
    let m3 = store16 m2 (stat + 18) (load16 m2 (item + 14)) in
    let m4 = store16 m3 (stat + 20) (load16 m3 (item + 16)) in
    let m5 = store16 m4 (stat + 22) (load16 m4 (item + 18)) in
    let m6 = store16 m5 (stat + 24) (load16 m5 (item + 22)) in
    let m7 = store16 m6 (stat + 26) (load16 m6 (item + 24)) in
    store32 m7 (stat + 28) (load32 m7 (Item.filesize item))

-- The names have no end of their own, so strcpy runs on fuel.
unfoldable pub fat16_stat : ℕ → Ram → ℕ → ℕ → Option (ℕ × Ram)
unfolding fill_stat
fat16_stat fuel m p stat =
    let desc_item = load32 m p in
    let item = load32 m desc_item in
    let copied = strcpy fuel m (stat + 4) item >>= λ (m1 : Ram).
    strcpy fuel m1 (stat + 12) (Item.ext item) >>= λ (m2 : Ram). some (0, fill_stat m2 item stat) in
    if not (load32 m (desc_item + 4) == fat_item_type_file) then some (neg32 einval, m) else copied

unfoldable pub fat16_free_directory : Ram → Heap → ℕ → Ram
fat16_free_directory m heap directory =
    let item = load32 m directory in
    let m1 = if not (item == null) then kfree m heap item else m in
    if directory == null then m else kfree m1 heap directory

unfoldable pub fat16_fat_item_free : Ram → Heap → ℕ → Ram
unfolding fat16_free_directory
fat16_fat_item_free m heap item =
    let type = load32 m (item + 4) in
    let m1 =
      if type == fat_item_type_directory
      then fat16_free_directory m heap (load32 m item)
      else if type == fat_item_type_file
      then kfree m heap (load32 m item)
      else m in
    if item == null then m else kfree m1 heap item

unfoldable pub fat16_free_file_descriptor : Ram → Heap → ℕ → Ram
unfolding fat16_fat_item_free
fat16_free_file_descriptor m heap fat_desc =
    kfree (fat16_fat_item_free m heap (load32 m fat_desc)) heap fat_desc

unfoldable pub fat16_close : Ram → Heap → ℕ → ℕ × Ram
unfolding fat16_free_file_descriptor
fat16_close m heap p = (0, fat16_free_file_descriptor m heap p)
