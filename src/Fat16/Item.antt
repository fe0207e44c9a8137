-- ===== src/Fat16/Item.antt =====
-- Where the members of a `struct fat_directory_item` of src/kernel/arch/x86/fs/fat16.c stand, which
-- is packed.
use larva_os.Base.{ℕ, ◌+◌}

abbrev pub bytes : ℕ
bytes = 32

abbrev pub ext : ℕ → ℕ
ext item = item + 8

abbrev pub attribute : ℕ → ℕ
attribute item = item + 11

abbrev pub high_16_bits_first_cluster : ℕ → ℕ
high_16_bits_first_cluster item = item + 20

abbrev pub low_16_bits_first_cluster : ℕ → ℕ
low_16_bits_first_cluster item = item + 26

abbrev pub filesize : ℕ → ℕ
filesize item = item + 28
