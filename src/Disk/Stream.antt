-- ===== src/Disk/Stream.antt =====
-- The stream over the disk, src/kernel/arch/x86/disk/stream.c. A `struct disk_stream` is eight
-- bytes of the kernel heap: `pos`, then `disk`.
pub mod Reads
pub mod Round
mod Tests
use larva_os.Base.{
  ℕ, zero, suc, ◌+◌, ◌-◌, ◌*◌, ◌/◌, ◌%◌, ◌^◌, Bool, if◌then◌else◌, ◌==◌, u32, sub32, slt, sdiv,
  is_neg, null, Ram, write, load32, store32, Option, none, some, ◌>>=◌,
}
use larva_os.Memory.Heap.{Heap}
use larva_os.Memory.Kheap.{kzalloc, kfree}
use larva_os.Disk.{Ports, disk_read_blocks, disk_sector_size, get_disk}

unfoldable pub create_disk_stream : Ram → Heap → ℕ → ℕ → ℕ × Ram
create_disk_stream m heap disk_address disk_id =
    let disk = get_disk disk_address disk_id in
    let (disk_streamer, m1) = kzalloc m heap 8 in
    if disk == null
    then (null, m)
    else (disk_streamer, store32 (store32 m1 disk_streamer 0) (disk_streamer + 4) disk)

unfoldable pub disk_stream_seek : Ram → ℕ → ℕ → ℕ × Ram
disk_stream_seek m stream pos = (0, store32 m stream pos)

-- `for (i = 0; i < total_to_read; i++) *buf++ = tmp_buf[offset + i];`, with `left` to go.
unfoldable pub copy_from : ℕ → Ram → ℕ → ℕ → Ram
copy_from zero m buf from = m
copy_from (suc left) m buf from = copy_from left (write m buf (m from)) (buf + 1) (from + 1)

unfoldable pub release_disk_stream : Ram → Heap → ℕ → Ram
release_disk_stream m heap stream = kfree m heap stream

-- `pos / DISK_SECTOR_SIZE` and `pos % DISK_SECTOR_SIZE` on `int`.
unfoldable pub sector_of : ℕ → ℕ
sector_of pos = sdiv pos disk_sector_size

unfoldable pub offset_of : ℕ → ℕ
offset_of pos = sub32 pos (u32 (sdiv pos disk_sector_size * disk_sector_size))

-- The rounds of `for (int i = 0; i < total_to_read; i++)`.
unfoldable pub rounds_to : ℕ → ℕ
rounds_to n = if is_neg n then 0 else n

module _ {Drive : Type 0} (ports : Ports Drive) (delay disk_address : ℕ) where
  -- The call at recursion depth `fuel` from the last has its `tmp_buf` at `tmp_buf fuel`.
  unfoldable pub disk_stream_read : (ℕ → ℕ) → ℕ → Drive → Ram → ℕ → ℕ → ℕ → Option (ℕ × Drive × Ram)
  disk_stream_read tmp_buf zero d m stream buf total = none
  disk_stream_read tmp_buf (suc fuel) d m stream buf total =
      let need_to_read_more_than_one_sector = slt disk_sector_size total in
      let pos = load32 m stream in
      let sector = sector_of pos in
      let offset = offset_of pos in
      let tmp = tmp_buf fuel in
      disk_read_blocks ports delay d m disk_address (load32 m (stream + 4)) sector 1 tmp
      >>= λ (out : ℕ × Drive × Ram).
          let total_to_read =
            if need_to_read_more_than_one_sector then disk_sector_size else total in
          let m2 = copy_from (rounds_to total_to_read) out.2 buf (u32 (tmp + offset)) in
          let m3 = store32 m2 stream (u32 (load32 m2 stream + total_to_read)) in
          let rest =
            disk_stream_read tmp_buf fuel out.1 m3 stream (buf + total_to_read)
              (sub32 total total_to_read) in
          if is_neg out.0
          then some out
          else if need_to_read_more_than_one_sector
          then rest
          else some (out.0, out.1, m3)
