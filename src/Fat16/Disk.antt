-- ===== src/Fat16/Disk.antt =====
-- The members of a `struct disk`, for src/kernel/arch/x86/fs/fat16.c.
use larva_os.Base.{ℕ, ◌+◌, Ram, load32}

abbrev pub sector_size : Ram → ℕ → ℕ
sector_size m disk = load32 m (disk + 4)

abbrev pub id : Ram → ℕ → ℕ
id m disk = load32 m (disk + 8)

abbrev pub fs : ℕ → ℕ
fs disk = disk + 12

abbrev pub fs_private_data : ℕ → ℕ
fs_private_data disk = disk + 16
