-- ===== src/Disk/Stream/Tests.antt =====
-- Reads from a stream over a drive that is always ready, for src/kernel/arch/x86/disk/stream.c.
use larva_os.Base.{
  ℕ, ◌+◌, ◌*◌, ◌≡◌, refl, arith, inl, inr, if◌then◌else◌, ◌==◌, Ram, some, load32, load32_of_bytes,
  load32-store32_self,
}
use larva_os.Disk.Ready.{Registers, at_rest, image, ready_ports, ready-IsAta}
use larva_os.Disk.Stream.{disk_stream_read, disk_stream_seek}
use larva_os.Disk.Stream.Round.{StandsAt}
use larva_os.Disk.Stream.Reads.{HasRead, disk_stream_read_beyond, disk_stream_read_lem}

-- A stream at 0x4000: its disk lies at 0, and its position is 512.
abbrev memory : Ram
memory q = if q == 0x4001 then 2 else 0

memory-StandsAt : StandsAt image 0 0x4000 memory 512
memory-StandsAt = record {
  at_pos = load32_of_bytes memory 0x4000 512 (omega arith) refl refl refl refl;
  at_disk = load32_of_bytes memory 0x4004 0 (omega arith) refl refl refl refl;
}

abbrev stack : ℕ → ℕ
stack k = 0x100000 + k * 1024

-- 600 bytes from the second sector on.
disk_stream_read_lem_example :
    HasRead ready_ports 0 image ready-IsAta 1 0 0x4000
      (omega arith)
      stack
      2
      memory
      0x8000
      512
      600
      (disk_stream_read ready_ports 1 0 stack 2 at_rest memory 0x4000 0x8000 600)
disk_stream_read_lem_example =
    disk_stream_read_lem ready_ports 0 image ready-IsAta 1 0 0x4000 (omega arith) stack 2 at_rest
      memory 0x8000 512 600 memory-StandsAt (omega arith) (omega arith) (omega arith) (inl refl)
      (λ k h. (omega arith, omega arith, omega arith)) (omega arith)

-- From 200 on, 400 bytes cross the end of the first sector: byte 312 is not the disk's byte 512.
abbrev late : Ram
late q = if q == 0x4000 then 200 else if q == 0x100200 then 99 else 0

late-StandsAt : StandsAt image 0 0x4000 late 200
late-StandsAt = record {
  at_pos = load32_of_bytes late 0x4000 200 (omega arith) refl refl refl refl;
  at_disk = load32_of_bytes late 0x4004 0 (omega arith) refl refl refl refl;
}

disk_stream_read_beyond_example :
    (d : Registers) × (m : Ram) × (disk_stream_read ready_ports 1 0 stack 1 at_rest late 0x4000
        0x8000 400
      ≡ some (0, d, m))
    × (m 0x8138 ≡ 99)
disk_stream_read_beyond_example =
    disk_stream_read_beyond ready_ports 0 image ready-IsAta 1 0 0x4000 (omega arith) stack 0 at_rest
      late 0x8000 200 400 312 late-StandsAt (omega arith) (omega arith) (omega arith)
      (inr (omega arith)) (inr (omega arith)) (omega arith) (omega arith)

sought : load32 (disk_stream_seek memory 0x4000 700).1 0x4000 ≡ 700
unfolding disk_stream_seek
sought = load32-store32_self memory 0x4000 700 (omega arith)
