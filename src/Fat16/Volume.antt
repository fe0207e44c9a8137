-- ===== src/Fat16/Volume.antt =====
-- The recognition of a volume, in src/kernel/arch/x86/fs/fat16.c.
use larva_os.Base.{
  ℕ, not, if◌then◌else◌, ◌==◌, is_neg, neg32, eio, enomem, null, Ram, store32, Option, some, ◌>>=◌,
}
use larva_os.Libc.Memory.{memset}
use larva_os.Memory.Kheap.{kzalloc, kfree}
use larva_os.Disk.Stream.{create_disk_stream, release_disk_stream}
use larva_os.Fat16.{Machine, fat16_signature, read_stream}
use larva_os.Fat16.Disk
use larva_os.Fat16.Private
use larva_os.Fat16.Directories.{fat16_get_root_directory}

module _ {Drive : Type 0} (k : Machine Drive) where
  unfoldable pub fat16_init_private_data : Ram → ℕ → ℕ → Ram
  fat16_init_private_data m disk private =
      let m1 = memset m private 0 Private.bytes in
      let (s1, m2) = create_disk_stream m1 k.heap k.disk_address (Disk.id m1 disk) in
      let m3 = store32 m2 (Private.cluster_read_stream private) s1 in
      let (s2, m4) = create_disk_stream m3 k.heap k.disk_address (Disk.id m3 disk) in
      let m5 = store32 m4 (Private.fat_read_stream private) s2 in
      let (s3, m6) = create_disk_stream m5 k.heap k.disk_address (Disk.id m5 disk) in
      store32 m6 (Private.directory_stream private) s3

  -- What stands after `out:` in fat16_resolve.
  unfoldable pub finish_resolve : ℕ → ℕ → ℕ → ℕ → Drive → Ram → Option (ℕ × Drive × Ram)
  finish_resolve res stream fat_private disk d m =
      let m1 = if not (stream == null) then release_disk_stream m k.heap stream else m in
      if is_neg res
      then some (res, d, store32 (kfree m1 k.heap fat_private) (Disk.fs_private_data disk) null)
      else some (res, d, m1)

  -- The part of fat16_resolve behind the header.
  unfoldable pub resolve_volume : ℕ → ℕ → ℕ → ℕ → Drive → Ram → Option (ℕ × Drive × Ram)
  unfolding finish_resolve fat16_get_root_directory
  resolve_volume fuel stream fat_private disk d m =
      let root =
        fat16_get_root_directory k fuel d m disk fat_private (Private.root_dir fat_private)
        >>= λ (out : ℕ × Drive × Ram).
            finish_resolve (if not (out.0 == 0) then neg32 eio else 0) stream fat_private disk out.1
              out.2 in
      if not (Private.signature m fat_private == fat16_signature)
      then finish_resolve (neg32 eio) stream fat_private disk d m
      else root

  -- `fat16_fs` is the address of the file system.
  unfoldable pub fat16_resolve : ℕ → ℕ → Drive → Ram → ℕ → Option (ℕ × Drive × Ram)
  unfolding fat16_init_private_data resolve_volume
  fat16_resolve fat16_fs fuel d m disk =
      let (fat_private, m1) = kzalloc m k.heap Private.bytes in
      let m2 = fat16_init_private_data m1 disk fat_private in
      let m3 = store32 m2 (Disk.fs_private_data disk) fat_private in
      let m4 = store32 m3 (Disk.fs disk) fat16_fs in
      let (stream, m5) = create_disk_stream m4 k.heap k.disk_address (Disk.id m4 disk) in
      let read =
        read_stream k d m5 stream fat_private Private.header_bytes >>= λ (out : ℕ × Drive × Ram).
        if not (out.0 == 0)
        then finish_resolve (neg32 eio) stream fat_private disk out.1 out.2
        else resolve_volume fuel stream fat_private disk out.1 out.2 in
      if stream == null then finish_resolve (neg32 enomem) stream fat_private disk d m5 else read
