-- ===== src/Disk/Tests.antt =====
-- Runs on a drive that is always ready, for src/kernel/arch/x86/disk/disk.c.
use larva_os.Base.{◌≡◌, refl, Ram, some, neg32, eio, null}
use larva_os.Disk.{disk_read_blocks, get_disk}
use larva_os.Disk.Ready.{at_rest, ready_ports}

abbrev blank : Ram
blank q = 0

other_disk :
    disk_read_blocks ready_ports 1 at_rest blank 0x9000 0x8000 3 1 0x8000
    ≡ some (neg32 eio, at_rest, blank)
unfolding disk_read_blocks
other_disk = refl

only-get_disk : get_disk 0x9000 1 ≡ null
unfolding get_disk
only-get_disk = refl
