-- ===== src/Fat16/Directories.antt =====
-- Directories and opening a file, in src/kernel/arch/x86/fs/fat16.c.
use larva_os.Base.{
  ℕ, zero, suc, ◌+◌, ◌*◌, not, if◌then◌else◌, ◌==◌, bit_and, u32, sdiv, slt, is_neg, neg32, eio,
  enomem, einval, erofs, null, Ram, load32, store32, Option, none, some, ◌>>=◌,
}
use larva_os.Libc.Memory.{memcpy}
use larva_os.Libc.Strings.{strcasecmp}
use larva_os.Memory.Kheap.{kzalloc, kfree}
use larva_os.Disk.Stream.{disk_stream_seek}
use larva_os.Path.{filesystem_max_path_length}
use larva_os.Vfs.{file_mode_read}
use larva_os.Fat16.{
  Machine, fat16_cluster_to_sector, fat16_fat_item_free, fat16_free_directory,
  fat16_get_first_cluster, fat16_get_full_relative_filename, fat_file_subdirectory,
  fat_item_type_directory, fat_item_type_file, read_stream,
}
use larva_os.Fat16.Directory
use larva_os.Fat16.Disk
use larva_os.Fat16.Item
use larva_os.Fat16.Private
use larva_os.Fat16.Clusters.{fat16_read_internal}

abbrev pub fat16_sector_to_absolute : Ram → ℕ → ℕ → ℕ
fat16_sector_to_absolute m disk sector = u32 (sector * Disk.sector_size m disk)

module _ {Drive : Type 0} (k : Machine Drive) where
  -- The loop of fat16_get_total_items_for_directory, on fuel.
  unfoldable pub count_items : ℕ → Drive → Ram → ℕ → ℕ → Option (ℕ × Drive × Ram)
  count_items zero d m stream total = none
  count_items (suc fuel) d m stream total =
      read_stream k d m stream k.item Item.bytes >>= λ (out : ℕ × Drive × Ram).
      let first = out.2 k.item in
      let rest =
        count_items fuel out.1 out.2 stream (if first == 0xe5 then total else u32 (total + 1)) in
      if not (out.0 == 0)
      then some (neg32 eio, out.1, out.2)
      else if first == 0xe5
      then rest
      else if first == 0x00
      then some (total, out.1, out.2)
      else rest

  -- `empty_item` is never read.
  unfoldable pub fat16_get_total_items_for_directory :
      ℕ → Drive → Ram → ℕ → ℕ → Option (ℕ × Drive × Ram)
  unfolding count_items
  fat16_get_total_items_for_directory fuel d m disk directory_start_sector =
      let directory_start_pos = u32 (directory_start_sector * Disk.sector_size m disk) in
      let stream = load32 m (Private.directory_stream (load32 m (Disk.fs_private_data disk))) in
      let (sought, m1) = disk_stream_seek m stream directory_start_pos in
      let counted = count_items fuel d m1 stream 0 in
      if not (sought == 0) then some (neg32 eio, d, m1) else counted

  -- The four members of `directory`, once the items stand at `dir`.
  unfoldable pub fill_directory : Ram → ℕ → ℕ → ℕ → ℕ → ℕ → Ram
  fill_directory m directory dir total_items sector_pos sectors =
      let m1 = store32 m directory dir in
      let m2 = store32 m1 (Directory.total directory) total_items in
      let m3 = store32 m2 (Directory.sector_pos directory) sector_pos in
      store32 m3 (Directory.ending_sector_pos directory) (u32 (sector_pos + sectors))

  -- `total_sectors` is never used.
  unfoldable pub fat16_get_root_directory : ℕ → Drive → Ram → ℕ → ℕ → ℕ → Option (ℕ × Drive × Ram)
  unfolding fat16_get_total_items_for_directory fill_directory
  fat16_get_root_directory fuel d m disk private directory =
      let root_dir_sector_pos = u32 (
        u32 (Private.fat_copies m private * Private.sectors_per_fat m private)
        + Private.reserved_sectors m private) in
      let root_dir_size = u32 (Private.root_dir_entries m private * Item.bytes) in
      fat16_get_total_items_for_directory fuel d m disk root_dir_sector_pos
      >>= λ (items : ℕ × Drive × Ram).
          let (dir, m1) = kzalloc items.2 k.heap root_dir_size in
          let stream = load32 m1 (Private.directory_stream private) in
          let (sought, m2) =
            disk_stream_seek m1 stream (fat16_sector_to_absolute m1 disk root_dir_sector_pos) in
          let read =
            read_stream k items.1 m2 stream dir root_dir_size >>= λ (out : ℕ × Drive × Ram).
            if not (out.0 == 0)
            then some (neg32 eio, out.1, out.2)
            else some (
              0,
              out.1,
              fill_directory out.2 directory dir items.0 root_dir_sector_pos
                  (sdiv root_dir_size (Disk.sector_size out.2 disk)),
            ) in
          if dir == null
          then some (neg32 enomem, items.1, m1)
          else if not (sought == 0)
          then some (neg32 eio, items.1, m2)
          else read

  -- What stands after `out:` in fat16_load_fat_directory: the directory is returned when it has
  -- been freed, too.
  unfoldable pub finish_directory : ℕ → ℕ → Drive → Ram → Option (ℕ × Drive × Ram)
  finish_directory res directory d m =
      some (directory, d, if is_neg res then fat16_free_directory m k.heap directory else m)

  -- The part of fat16_load_fat_directory with the directory allocated.
  unfoldable pub load_items : ℕ → Drive → Ram → ℕ → ℕ → ℕ → Option (ℕ × Drive × Ram)
  unfolding finish_directory fat16_get_total_items_for_directory
  load_items fuel d m disk item directory =
      let cluster = fat16_get_first_cluster m item in
      let private = load32 m (Disk.fs_private_data disk) in
      fat16_get_total_items_for_directory fuel d m disk (fat16_cluster_to_sector m private cluster)
      >>= λ (items : ℕ × Drive × Ram).
          let m1 = store32 items.2 (Directory.total directory) items.0 in
          let directory_size = u32 (items.0 * Item.bytes) in
          let (place, m2) = kzalloc m1 k.heap directory_size in
          let m3 = store32 m2 directory place in
          let read =
            fat16_read_internal k fuel items.1 m3 disk cluster 0x00 directory_size place
            >>= λ (out : ℕ × Drive × Ram). finish_directory out.0 directory out.1 out.2 in
          if place == null then finish_directory (neg32 enomem) directory items.1 m3 else read

  unfoldable pub fat16_load_fat_directory : ℕ → Drive → Ram → ℕ → ℕ → Option (ℕ × Drive × Ram)
  unfolding load_items
  fat16_load_fat_directory fuel d m disk item =
      let (directory, m1) = kzalloc m k.heap Directory.bytes in
      let loaded = load_items fuel d m1 disk item directory in
      if bit_and (m (Item.attribute item)) fat_file_subdirectory == 0
      then finish_directory (neg32 einval) null d m
      else if directory == null
      then finish_directory (neg32 enomem) null d m1
      else loaded

  unfoldable pub fat16_clone_directory_item : Ram → ℕ → ℕ × Ram
  fat16_clone_directory_item m item =
      let (item_copy, m1) = kzalloc m k.heap Item.bytes in
      if item_copy == null
      then (item_copy, m1)
      else (item_copy, memcpy m1 item_copy item Item.bytes)

  unfoldable pub fat16_make_new_fat_item_for_directory_item :
      ℕ → Drive → Ram → ℕ → ℕ → Option (ℕ × Drive × Ram)
  unfolding fat16_load_fat_directory fat16_clone_directory_item
  fat16_make_new_fat_item_for_directory_item fuel d m disk item =
      let (f_item, m1) = kzalloc m k.heap 8 in
      let as_directory = fat16_load_fat_directory fuel d m1 disk item >>= λ (out : ℕ × Drive × Ram).
      some (
        f_item,
        out.1,
        store32 (store32 out.2 f_item out.0) (f_item + 4) fat_item_type_directory,
      ) in
      let (clone, m3) =
        fat16_clone_directory_item (store32 m1 (f_item + 4) fat_item_type_file) item in
      if f_item == null
      then some (null, d, m1)
      else if not (bit_and (m1 (Item.attribute item)) fat_file_subdirectory == 0)
      then as_directory
      else some (f_item, d, store32 m3 f_item clone)

  -- The loop of fat16_find_item_in_directory, from index `i` on with the last item it made. It goes
  -- on behind an item that it has found.
  unfoldable pub find_from : ℕ → ℕ → Drive → Ram → ℕ → ℕ → ℕ → ℕ → ℕ → Option (ℕ × Drive × Ram)
  unfolding fat16_make_new_fat_item_for_directory_item
  find_from zero fuel d m disk directory name i item = none
  find_from (suc rounds) fuel d m disk directory name i item =
      let entry = u32 (load32 m directory + i * Item.bytes) in
      let m1 = fat16_get_full_relative_filename m entry k.tmp_filename filesystem_max_path_length in
      let step = strcasecmp fuel m1 k.tmp_filename name >>= λ (order : ℕ).
      (if order == 0
        then fat16_make_new_fat_item_for_directory_item fuel d m1 disk
            (u32 (load32 m1 directory + i * Item.bytes))
        else some (item, d, m1))
      >>= λ (out : ℕ × Drive × Ram).
          find_from rounds fuel out.1 out.2 disk directory name (i + 1) out.0 in
      if slt i (load32 m (Directory.total directory)) then step else some (item, d, m)

  unfoldable pub fat16_find_item_in_directory :
      ℕ → Drive → Ram → ℕ → ℕ → ℕ → Option (ℕ × Drive × Ram)
  unfolding find_from
  fat16_find_item_in_directory fuel d m disk directory name =
      find_from fuel fuel d m disk directory name 0 null

  -- The loop of fat16_get_directory_entry over the parts of the path.
  unfoldable pub walk_path : ℕ → ℕ → Drive → Ram → ℕ → ℕ → ℕ → Option (ℕ × Drive × Ram)
  unfolding fat16_find_item_in_directory
  walk_path zero fuel d m disk current_item next = none
  walk_path (suc rounds) fuel d m disk current_item next =
      let step =
        fat16_find_item_in_directory fuel d m disk (load32 m current_item) (load32 m next)
        >>= λ (out : ℕ × Drive × Ram).
            let m1 = fat16_fat_item_free out.2 k.heap current_item in
            walk_path rounds fuel out.1 m1 disk out.0 (load32 m1 (next + 4)) in
      if next == null
      then some (current_item, d, m)
      else if not (load32 m (current_item + 4) == fat_file_subdirectory)
      then some (null, d, m)
      else step

  unfoldable pub fat16_get_directory_entry : ℕ → Drive → Ram → ℕ → ℕ → Option (ℕ × Drive × Ram)
  unfolding walk_path
  fat16_get_directory_entry fuel d m disk path =
      let private = load32 m (Disk.fs_private_data disk) in
      fat16_find_item_in_directory fuel d m disk (Private.root_dir private) (load32 m path)
      >>= λ (out : ℕ × Drive × Ram).
          let walked = walk_path fuel fuel out.1 out.2 disk out.0 (load32 out.2 (path + 4)) in
          if out.0 == null then some (null, out.1, out.2) else walked

  -- The descriptor, or the error as a pointer.
  unfoldable pub fat16_open : ℕ → Drive → Ram → ℕ → ℕ → ℕ → Option (ℕ × Drive × Ram)
  unfolding fat16_get_directory_entry
  fat16_open fuel d m disk path mode =
      let (fat_fd, m1) = kzalloc m k.heap 8 in
      let opened = fat16_get_directory_entry fuel d m1 disk path >>= λ (out : ℕ × Drive × Ram).
      let m2 = store32 out.2 fat_fd out.0 in
      if out.0 == null
      then some (neg32 eio, out.1, kfree m2 k.heap fat_fd)
      else some (fat_fd, out.1, store32 m2 (fat_fd + 4) 0) in
      if not (mode == file_mode_read)
      then some (neg32 erofs, d, m)
      else if fat_fd == null
      then some (neg32 enomem, d, m1)
      else opened
