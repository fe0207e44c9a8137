-- ===== src/Fat16/Private.antt =====
-- Where the members of a `struct fat_private_data` of src/kernel/arch/x86/fs/fat16.c stand: first
-- the header of the volume, which is packed, then `root_dir`, then the three streams.
use larva_os.Base.{ℕ, ◌+◌, Ram}
use larva_os.Fat16.Words.{load16}

abbrev pub bytes : ℕ
bytes = 92

abbrev pub header_bytes : ℕ
header_bytes = 62

abbrev pub sectors_per_cluster : Ram → ℕ → ℕ
sectors_per_cluster m private = m (private + 13)

abbrev pub reserved_sectors : Ram → ℕ → ℕ
reserved_sectors m private = load16 m (private + 14)

abbrev pub fat_copies : Ram → ℕ → ℕ
fat_copies m private = m (private + 16)

abbrev pub root_dir_entries : Ram → ℕ → ℕ
root_dir_entries m private = load16 m (private + 17)

abbrev pub sectors_per_fat : Ram → ℕ → ℕ
sectors_per_fat m private = load16 m (private + 22)

abbrev pub signature : Ram → ℕ → ℕ
signature m private = m (private + 38)

abbrev pub root_dir : ℕ → ℕ
root_dir private = private + 64

abbrev pub cluster_read_stream : ℕ → ℕ
cluster_read_stream private = private + 80

abbrev pub fat_read_stream : ℕ → ℕ
fat_read_stream private = private + 84

abbrev pub directory_stream : ℕ → ℕ
directory_stream private = private + 88
