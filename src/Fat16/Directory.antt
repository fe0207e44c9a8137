-- ===== src/Fat16/Directory.antt =====
-- Where the members of a `struct fat_directory` of src/kernel/arch/x86/fs/fat16.c stand, behind
-- `item`.
use larva_os.Base.{ℕ, ◌+◌}

abbrev pub bytes : ℕ
bytes = 16

abbrev pub total : ℕ → ℕ
total directory = directory + 4

abbrev pub sector_pos : ℕ → ℕ
sector_pos directory = directory + 8

abbrev pub ending_sector_pos : ℕ → ℕ
ending_sector_pos directory = directory + 12
