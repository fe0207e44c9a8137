-- ===== src/Disk.antt =====
-- The disk of src/kernel/arch/x86/disk/disk.c and the stream over it of disk/stream.c. The drive
-- and the port instructions that reach it are a parameter.
pub mod Drives
pub mod Ready
pub mod Stream
mod Tests
use larva_os.Base.{
  ℕ, zero, suc, ◌+◌, ◌-◌, ◌*◌, ◌/◌, ◌%◌, ◌^◌, Bool, true, false, if◌then◌else◌, ◌==◌, ltb, not,
  bit_and, bit_or, u8, u16, u32, sub32, slt, sdiv, is_neg, neg32, eio, null, Ram, write, at, Option,
  none, some, ◌>>=◌, ◌>>>◌,
}
use larva_os.Memory.Heap.{Heap}
use larva_os.Memory.Kheap.{kzalloc, kfree}

-- The port instructions: they take the state of the drive.
pub record Ports (Drive : Type 0) : Type 0 where
  pub outb : Drive → ℕ → ℕ → Drive
  pub inb : Drive → ℕ → ℕ × Drive
  pub inw : Drive → ℕ → ℕ × Drive

abbrev pub disk_sector_size : ℕ
disk_sector_size = 512

abbrev pub physical_hard_disk_type : ℕ
physical_hard_disk_type = 0

-- `lba >> k` on a signed `int`, of which the port takes the low byte.
abbrev pub lba_byte : ℕ → ℕ → ℕ
lba_byte lba k = u8 (lba >>> k)

module _ {Drive : Type 0} (ports : Ports Drive) where
  -- `while (!(byte & 0x08)) byte = inb(0x1F7);`, after the first `inb`.
  unfoldable pub wait_ready : ℕ → Drive → ℕ → Option Drive
  wait_ready zero d byte = none
  wait_ready (suc fuel) d byte =
      let (byte', d') = ports.inb d 0x1f7 in
      let rest = wait_ready fuel d' byte' in if not (bit_and byte 0x08 == 0) then some d else rest

  -- `*ptr = inw(0x1F0); ptr++;`, with `left` words to go.
  unfoldable pub copy_words : ℕ → Drive → Ram → ℕ → Drive × Ram × ℕ
  copy_words zero d m ptr = (d, m, ptr)
  copy_words (suc left) d m ptr =
      let (w, d') = ports.inw d 0x1f0 in
      copy_words left d' (write (write m ptr (u8 w)) (ptr + 1) (u8 (w / 2 ^ 8))) (ptr + 2)

  -- The loop over the sectors, with `left` to go. The drive gets `fuel` answers to be ready.
  unfoldable pub copy_sectors : ℕ → ℕ → Drive → Ram → ℕ → Option (Drive × Ram)
  copy_sectors fuel zero d m ptr = some (d, m)
  copy_sectors fuel (suc left) d m ptr =
      let (byte, d1) = ports.inb d 0x1f7 in
      wait_ready fuel d1 byte >>= λ (d2 : Drive).
      let (d3, m', ptr') = copy_words 256 d2 m ptr in copy_sectors fuel left d3 m' ptr'

  unfoldable pub command : Drive → ℕ → ℕ → Drive
  command d lba sectors =
      let d1 = ports.outb d 0x1f6 (u8 (bit_or (lba_byte lba 24) 0b11100000)) in
      let d2 = ports.outb d1 0x1f2 (u8 sectors) in
      let d3 = ports.outb d2 0x1f3 (u8 (bit_and lba 0b11111111)) in
      let d4 = ports.outb d3 0x1f4 (lba_byte lba 8) in
      let d5 = ports.outb d4 0x1f5 (lba_byte lba 16) in ports.outb d5 0x1f7 0x20

  unfoldable pub disk_read_sectors : ℕ → Drive → Ram → ℕ → ℕ → ℕ → Option (ℕ × Drive × Ram)
  unfolding command copy_sectors
  disk_read_sectors fuel d m lba sectors buf =
      copy_sectors fuel (if is_neg sectors then 0 else sectors) (command d lba sectors) m buf
      >>= λ (out : Drive × Ram). some (0, out.0, out.1)

  -- `disk_address` is `&disk`.
  unfoldable pub disk_read_blocks : ℕ → Drive → Ram → ℕ → ℕ → ℕ → ℕ → ℕ → Option (ℕ × Drive × Ram)
  unfolding disk_read_sectors
  disk_read_blocks fuel d m disk_address idisk lba sectors buf =
      let result = disk_read_sectors fuel d m lba sectors buf in
      if not (idisk == disk_address) then some (neg32 eio, d, m) else result

unfoldable pub get_disk : ℕ → ℕ → ℕ
get_disk disk_address index = if not (index == 0) then null else disk_address
