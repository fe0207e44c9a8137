-- ===== src/Fat16/Reads/Tests.antt =====
-- A file of two clusters, for src/kernel/arch/x86/fs/fat16.c.
use larva_os.Base.{ℕ, zero, suc, ◌*◌, refl, arith, if◌then◌else◌, ◌==◌, Ram, load32_of_bytes}
use larva_os.Disk.Ready.{Registers, at_rest, image, ready-IsAta}
use larva_os.Fat16.{fat16_get_first_cluster}
use larva_os.Fat16.Words.{load16}
use larva_os.Fat16.Chains.{chain}
use larva_os.Fat16.Clusters.{fat16_read}
use larva_os.Fat16.Reads.{Listed, Opened, Reads, fat16_read_lem}
use larva_os.Fat16.Reads.Layout.{IsVolume, Readable, Reading, Ready}
use larva_os.Fat16.Tests.{ready, ready-Separate}

-- The disk at 0x100, the private data at 0x200, the stream of the table at 0x300 and that of the
-- files at 0x310; the table begins in sector 1, the clusters in sector 20, and a cluster has one
-- sector. The descriptor at 0x700 is of the item at 0x720, whose directory item stands at 0x740.
abbrev with_file : Ram
with_file q =
    if q == 0x105
    then 2
    else if q == 0x111
    then 2
    else if q == 0x20d
    then 1
    else if q == 0x20e
    then 1
    else if q == 0x24c
    then 20
    else if q == 0x250
    then 0x10
    else if q == 0x251
    then 3
    else if q == 0x255
    then 3
    else if q == 0x305
    then 1
    else if q == 0x315
    then 1
    else if q == 0x700
    then 0x20
    else if q == 0x701
    then 7
    else if q == 0x720
    then 0x40
    else if q == 0x721
    then 7
    else if q == 0x75a
    then 2
    else 0

abbrev two_clusters : Reading Registers
two_clusters = record {
  k = ready;
  busy = 0;
  image = image;
  ata = ready-IsAta;
  disk = 0x100;
  private = 0x200;
  stream = 0x300;
  reserved = 1;
  sectors = 1;
  files = 0x310;
  start = 20;
}

with_file-Readable : Readable two_clusters with_file
unfolding load16
with_file-Readable = record {
  mounted = record {
    volume = load32_of_bytes with_file 0x110 0x200 (omega arith) refl refl refl refl;
    sector = load32_of_bytes with_file 0x104 512 (omega arith) refl refl refl refl;
    per_cluster = refl;
    before_fat = refl;
    fat_stream = load32_of_bytes with_file 0x254 0x300 (omega arith) refl refl refl refl;
    stream_disk = load32_of_bytes with_file 0x304 0x100 (omega arith) refl refl refl refl;
  };
  begins = load32_of_bytes with_file 0x24c 20 (omega arith) refl refl refl refl;
  files_disk = load32_of_bytes with_file 0x314 0x100 (omega arith) refl refl refl refl;
}

with_file-IsVolume : IsVolume two_clusters
with_file-IsVolume = record {
  low = omega arith;
  some_sectors = omega arith;
  few = omega arith;
  room = omega arith;
}

with_file-Ready : Ready two_clusters 0x800 700
with_file-Ready = record {
  separate = ready-Separate;
  deep = omega arith;
  buffers = λ i h. (omega arith, omega arith);
  out_files = omega arith;
  out_stream = omega arith;
  out_disk = omega arith;
  out_private = omega arith;
  out_result = omega arith;
  files_stream = omega arith;
  files_disk = omega arith;
  files_private = omega arith;
  files_result = omega arith;
  fits = omega arith;
}

with_file-Opened : Opened two_clusters with_file 0x700 2 (0 * (1 * 512))
unfolding fat16_get_first_cluster load16
with_file-Opened =
    let item = load32_of_bytes with_file 0x700 0x720 (omega arith) refl refl refl refl in
    let entry = load32_of_bytes with_file 0x720 0x740 (omega arith) refl refl refl refl in
    record {
      first_cluster = rw (item, entry) refl;
      stands = load32_of_bytes with_file 0x704 0 (omega arith) refl refl refl refl;
      has_files = load32_of_bytes with_file 0x250 0x310 (omega arith) refl refl refl refl;
    }

-- The clusters that the code takes for those of the file.
abbrev clusters : ℕ → ℕ
clusters i = if i == 0 then 2 else 10536

clusters-Listed : Listed two_clusters 2 clusters 0 700
unfolding chain
clusters-Listed zero h = (refl, omega arith)
clusters-Listed (suc zero) h = (refl, omega arith)
clusters-Listed (suc (suc i)) h = absurd (omega (arith, h))

-- 700 bytes from the beginning of the file.
fat16_read_lem_example :
    Reads two_clusters clusters with_file 0x800 0 700
      (fat16_read ready 2 at_rest with_file 0x100 0x700 700 1 0x800)
fat16_read_lem_example =
    fat16_read_lem two_clusters 2 0 at_rest with_file 0x700 2 clusters 0x800 700 with_file-IsVolume
      with_file-Ready with_file-Readable with_file-Opened (omega arith) clusters-Listed
      (omega arith) (omega arith) (omega arith)
