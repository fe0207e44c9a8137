-- ===== src/Fat16/Tests.antt =====
-- The FAT16 file system at work, for src/kernel/arch/x86/fs/fat16.c.
use larva_os.Base.{
  ◌*◌, ◌/◌, ◌<◌, load32, load32_of_bytes, ◌+◌, ◌≡◌, refl, arith, inr, if◌then◌else◌, ◌==◌, Ram,
  get_or, [], ◌∷◌,
}
use larva_os.Memory.Heap.Small.{small_heap}
use larva_os.Disk.Ready.{Registers, at_rest, image, ready_ports, ready-IsAta}
use larva_os.Fat16.{Machine, fat16_get_full_relative_filename, fat16_seek, seek_cur, seek_set}
use larva_os.Fat16.Words.{load16}
use larva_os.Fat16.Chains.{
  Gives, cluster_or_error, entry_at, Mounted, Separate, chain, get_cluster_for_offset_lem,
  get_fat_entry_misplaced,
}
use larva_os.Fat16.Clusters.{fat16_get_cluster_for_offset, fat16_get_fat_entry}
use larva_os.Fat16.Seek.{IsOpen, seek_beyond}
use larva_os.Fat16.Names.{
  Named, fat16_get_full_relative_filename_lem, field, full_name, trim, dotted,
}

-- `DATA    TXT` at 0.
abbrev item_bytes : Ram
item_bytes q =
    get_or (b'D' ∷ b'A' ∷ b'T' ∷ b'A' ∷ 32 ∷ 32 ∷ 32 ∷ 32 ∷ b'T' ∷ b'X' ∷ b'T' ∷ 0 ∷ []) q 0

data_name : full_name item_bytes 0 ≡ b'D' ∷ b'A' ∷ b'T' ∷ b'A' ∷ b'.' ∷ b'T' ∷ b'X' ∷ b'T' ∷ []
unfolding full_name field trim dotted
data_name = refl

fat16_get_full_relative_filename_lem_example :
    Named item_bytes
      (fat16_get_full_relative_filename item_bytes 0 0x100 100)
      0x100
      100
      (full_name item_bytes 0)
fat16_get_full_relative_filename_lem_example =
    fat16_get_full_relative_filename_lem item_bytes 0 0x100 100 (omega arith) (inr (omega arith))

-- The disk at 0x100, the private data at 0x200, the stream of the table at 0x300; the table begins
-- in sector 1, and a cluster has one sector.
abbrev volume : Ram
volume q =
    if q == 0x105
    then 2
    else if q == 0x111
    then 2
    else if q == 0x20d
    then 1
    else if q == 0x20e
    then 1
    else if q == 0x255
    then 3
    else if q == 0x305
    then 1
    else 0

abbrev pub ready : Machine Registers
ready = record {
  ports = ready_ports;
  delay = 1;
  disk_address = 0x100;
  tmp_buf = λ i. 0x100000 + i * 1024;
  depth = 1;
  heap = small_heap;
  item = 0x500;
  result = 0x400;
  tmp_filename = 0x600;
}

volume-Mounted : Mounted ready 0 image ready-IsAta 0x100 0x200 0x300 1 1 volume
unfolding load16
volume-Mounted = record {
  volume = load32_of_bytes volume 0x110 0x200 (omega arith) refl refl refl refl;
  sector = load32_of_bytes volume 0x104 512 (omega arith) refl refl refl refl;
  per_cluster = refl;
  before_fat = refl;
  fat_stream = load32_of_bytes volume 0x254 0x300 (omega arith) refl refl refl refl;
  stream_disk = load32_of_bytes volume 0x304 0x100 (omega arith) refl refl refl refl;
}

pub ready-Separate : Separate ready 0 image ready-IsAta 0x100 0x200 0x300 1 1
ready-Separate = record {
  patient = omega arith;
  deep = omega arith;
  present = omega arith;
  buffers = λ i h. (omega arith, omega arith, omega arith, omega arith, omega arith);
  result_stream = omega arith;
  result_disk = omega arith;
  result_private = omega arith;
  stream_private = omega arith;
  stream_volume = omega arith;
}

get_fat_entry_misplaced_example :
    Gives ready 0 image ready-IsAta 0x100 0x200 0x300 1 1
      (entry_at ready 0 image ready-IsAta 0x100 0x200 0x300 1 1 2)
      volume
      (fat16_get_fat_entry ready at_rest volume 0x100 2)
    × (1 * 512 + 2 * 2 < 2048)
get_fat_entry_misplaced_example =
    get_fat_entry_misplaced ready 0 image ready-IsAta 0x100 0x200 0x300 1 1 at_rest volume 2
      ready-Separate volume-Mounted (omega arith) (omega arith) (omega arith) (omega arith)

get_cluster_for_offset_lem_example :
    Gives ready 0 image ready-IsAta 0x100 0x200 0x300 1 1
      (cluster_or_error ready 0 image ready-IsAta 0x100 0x200 0x300 1 1
        (chain ready 0 image ready-IsAta 0x100 0x200 0x300 1 1 (700 / (1 * 512)) 2))
      volume
      (fat16_get_cluster_for_offset ready at_rest volume 0x100 2 700)
get_cluster_for_offset_lem_example =
    get_cluster_for_offset_lem ready 0 image ready-IsAta 0x100 0x200 0x300 1 1 at_rest volume 2 700
      ready-Separate volume-Mounted (omega arith) (omega arith) (omega arith) (omega arith)
      (omega arith)

-- A descriptor at 0x10 of an item at 0x20, whose directory item stands at 0x40 and has 256 bytes.
abbrev open_memory : Ram
open_memory q =
    if q == 0x10
    then 0x20
    else if q == 0x20
    then 0x40
    else if q == 0x24
    then 1
    else if q == 0x5d
    then 1
    else 0

open_memory-IsOpen : IsOpen open_memory 0x10 0x20 0x40 256
open_memory-IsOpen = record {
  item_of = load32_of_bytes open_memory 0x10 0x20 (omega arith) refl refl refl refl;
  entry_of = load32_of_bytes open_memory 0x20 0x40 (omega arith) refl refl refl refl;
  is_file = load32_of_bytes open_memory 0x24 1 (omega arith) refl refl refl refl;
  size_of = load32_of_bytes open_memory 0x5c 256 (omega arith) refl refl refl refl;
  item_apart = omega arith;
  entry_apart = omega arith;
}

-- 200 and 200 more, in a file of 256 bytes.
seek_beyond_example :
    let (first, m1) = fat16_seek open_memory 0x10 200 seek_set in
    let (second, m2) = fat16_seek m1 0x10 200 seek_cur in
    (first ≡ 0) × (second ≡ 0) × (load32 m2 0x14 ≡ 400)
seek_beyond_example =
    seek_beyond 0x10 0x20 0x40 256 open_memory 200 200 open_memory-IsOpen (omega arith)
      (omega arith) (omega arith)
