-- ===== src/Fat16/Clusters.antt =====
-- The file allocation table and reading from the clusters of a file, in
-- src/kernel/arch/x86/fs/fat16.c.
use larva_os.Base.{
  ℕ, zero, suc, ◌+◌, ◌*◌, Bool, ◌||◌, if◌then◌else◌, ◌==◌, u32, sub32, sdiv, slt, is_neg, neg32,
  eio, null, Ram, load32, Option, none, some, ◌>>=◌,
}
use larva_os.Disk.Stream.{disk_stream_seek, rounds_to}
use larva_os.Fat16.{
  Machine, fat16_bad_sector, fat16_cluster_to_sector, fat16_fat_entry_size, fat16_get_first_cluster,
  read_stream,
}
use larva_os.Fat16.Disk
use larva_os.Fat16.Private
use larva_os.Fat16.Words.{load16, srem, store16}

abbrev pub fat16_get_first_fat_sector : Ram → ℕ → ℕ
fat16_get_first_fat_sector m private = Private.reserved_sectors m private

-- Where fat16_get_fat_entry seeks to. The position of the table is multiplied with the offset of
-- the entry.
abbrev pub fat_entry_position : Ram → ℕ → ℕ → ℕ
fat_entry_position m disk cluster =
    let private = load32 m (Disk.fs_private_data disk) in
    let fat_table_position = u32 (fat16_get_first_fat_sector m private * Disk.sector_size m disk) in
    u32 (fat_table_position * u32 (cluster * fat16_fat_entry_size))

-- `entry` ends a chain in fat16_get_cluster_for_offset.
abbrev pub ends_chain : ℕ → Bool
ends_chain entry =
    (entry == 0xff8)
    || (entry == 0xfff)
    || (entry == fat16_bad_sector)
    || (entry == 0xff0)
    || (entry == 0xff6)
    || (entry == 0x00)

abbrev pub size_of_cluster_bytes : Ram → ℕ → ℕ
size_of_cluster_bytes m disk =
    let private = load32 m (Disk.fs_private_data disk) in
    u32 (Private.sectors_per_cluster m private * Disk.sector_size m disk)

module _ {Drive : Type 0} (k : Machine Drive) where
  unfoldable pub fat16_get_fat_entry : Drive → Ram → ℕ → ℕ → Option (ℕ × Drive × Ram)
  fat16_get_fat_entry d m disk cluster =
      let stream = load32 m (Private.fat_read_stream (load32 m (Disk.fs_private_data disk))) in
      let (sought, m1) = disk_stream_seek m stream (fat_entry_position m disk cluster) in
      let entry =
        read_stream k d (store16 m1 k.result 0) stream k.result 2 >>= λ (out : ℕ × Drive × Ram).
        if is_neg out.0 then some out else some (load16 out.2 k.result, out.1, out.2) in
      if stream == null
      then some (neg32 eio, d, m)
      else if is_neg sought
      then some (sought, d, m1)
      else entry

  -- The loop of fat16_get_cluster_for_offset, with `left` clusters to go.
  unfoldable pub follow_chain : ℕ → Drive → Ram → ℕ → ℕ → Option (ℕ × Drive × Ram)
  follow_chain zero d m disk cluster = some (cluster, d, m)
  follow_chain (suc left) d m disk cluster =
      fat16_get_fat_entry d m disk cluster >>= λ (out : ℕ × Drive × Ram).
      let rest = follow_chain left out.1 out.2 disk out.0 in
      if ends_chain out.0 then some (neg32 eio, out.1, out.2) else rest

  unfoldable pub fat16_get_cluster_for_offset : Drive → Ram → ℕ → ℕ → ℕ → Option (ℕ × Drive × Ram)
  unfolding follow_chain
  fat16_get_cluster_for_offset d m disk starting_cluster offset =
      follow_chain (rounds_to (sdiv offset (size_of_cluster_bytes m disk))) d m disk
        starting_cluster

  -- The calls of itself run on fuel.
  unfoldable pub fat16_read_internal_from_stream :
      ℕ → Drive → Ram → ℕ → ℕ → ℕ → ℕ → ℕ → ℕ → Option (ℕ × Drive × Ram)
  fat16_read_internal_from_stream zero d m disk stream cluster offset total out = none
  fat16_read_internal_from_stream (suc fuel) d m disk stream cluster offset total out =
      let size = size_of_cluster_bytes m disk in
      fat16_get_cluster_for_offset d m disk cluster offset >>= λ (found : ℕ × Drive × Ram).
      let private = load32 found.2 (Disk.fs_private_data disk) in
      let starting_sector = fat16_cluster_to_sector found.2 private found.0 in
      let starting_pos =
        u32 (u32 (starting_sector * Disk.sector_size found.2 disk) + srem offset size) in
      let total_to_read = if slt size total then size else total in
      let (sought, m1) = disk_stream_seek found.2 stream starting_pos in
      let read = read_stream k found.1 m1 stream out total_to_read >>= λ (got : ℕ × Drive × Ram).
      let left = sub32 total total_to_read in
      let more =
        fat16_read_internal_from_stream fuel got.1 got.2 disk stream cluster
          (u32 (offset + total_to_read)) left (u32 (out + total_to_read)) in
      if is_neg got.0 then some got else if slt 0 left then more else some got in
      if is_neg found.0
      then some found
      else if is_neg sought
      then some (sought, found.1, m1)
      else read

  unfoldable pub fat16_read_internal :
      ℕ → Drive → Ram → ℕ → ℕ → ℕ → ℕ → ℕ → Option (ℕ × Drive × Ram)
  unfolding fat16_read_internal_from_stream
  fat16_read_internal fuel d m disk starting_cluster offset total out =
      let stream = load32 m (Private.cluster_read_stream (load32 m (Disk.fs_private_data disk))) in
      fat16_read_internal_from_stream fuel d m disk stream starting_cluster offset total out

  -- The loop of fat16_read, with `left` of its `nmemb` rounds to go.
  unfoldable pub read_members :
      ℕ → ℕ → ℕ → Drive → Ram → ℕ → ℕ → ℕ → ℕ → ℕ → Option (ℕ × Drive × Ram)
  unfolding fat16_read_internal
  read_members fuel nmemb zero d m disk item offset size out = some (nmemb, d, m)
  read_members fuel nmemb (suc left) d m disk item offset size out =
      fat16_read_internal fuel d m disk (fat16_get_first_cluster m item) offset size out
      >>= λ (got : ℕ × Drive × Ram).
          let rest =
            read_members fuel nmemb left got.1 got.2 disk item (u32 (offset + size)) size
              (u32 (out + size)) in
          if is_neg got.0 then some got else rest

  -- `pos` of the descriptor is read and not moved.
  unfoldable pub fat16_read : ℕ → Drive → Ram → ℕ → ℕ → ℕ → ℕ → ℕ → Option (ℕ × Drive × Ram)
  unfolding read_members
  fat16_read fuel d m disk p size nmemb out =
      read_members fuel nmemb nmemb d m disk (load32 m (load32 m p)) (load32 m (p + 4)) size out
