-- ===== src/Fat16/Reads/Layout.antt =====
-- What stands where in memory while fat16_read of src/kernel/arch/x86/fs/fat16.c reads a file.
use larva_os.Base.{
  ℕ, ◌+◌, ◌-◌, ◌*◌, ◌^◌, ◌≤◌, ◌<◌, ◌≡◌, ◌∙◌, arith, Ram, load32, load32_ext, Option,
}
use larva_os.Disk.Drives.{IsAta}
use larva_os.Disk.Stream.Round.{Apart, Off}
use larva_os.Fat16.{Machine}
use larva_os.Fat16.Chains.{Gives, Mounted, Separate, Spared, chain, kept-Mounted}

-- The kernel's objects, the cache of the volume and the drive: the disk, the private data of its
-- file system, and the streams for the table and for the files.
pub record Reading (Drive : Type 0) : Type 1 where
  pub k : Machine Drive
  pub busy : ℕ
  pub image : ℕ → ℕ
  pub ata : IsAta k.ports busy image
  pub disk : ℕ
  pub private : ℕ
  pub stream : ℕ
  pub reserved : ℕ
  pub sectors : ℕ
  pub files : ℕ
  pub start : ℕ

module _ {Drive : Type 0} (w : Reading Drive) where
  abbrev pub Spares : ℕ → Type 0
  Spares = Spared w.k w.busy w.image w.ata w.disk w.private w.stream w.reserved w.sectors

  abbrev pub Finds : ℕ → Ram → Option (ℕ × Drive × Ram) → Type 0
  Finds = Gives w.k w.busy w.image w.ata w.disk w.private w.stream w.reserved w.sectors

  abbrev pub chained : ℕ → ℕ → Option ℕ
  chained = chain w.k w.busy w.image w.ata w.disk w.private w.stream w.reserved w.sectors

  -- The clusters begin in sector `start`, and the stream for reading them is `files`.
  pub record Readable (m : Ram) : Type 0 where
    pub mounted : Mounted w.k w.busy w.image w.ata w.disk w.private w.stream w.reserved w.sectors m
    pub begins : load32 m (w.private + 64 + 12) ≡ w.start
    pub files_disk : load32 m (w.files + 4) ≡ w.k.disk_address

  -- The caller's buffer, the stream of the files and the other objects have no byte in common, and
  -- one call reads a cluster.
  pub record Ready (out total : ℕ) : Type 0 where
    pub separate : Separate w.k w.busy w.image w.ata w.disk w.private w.stream w.reserved w.sectors
    pub deep : w.sectors ≤ w.k.depth
    pub buffers :
        (i : ℕ)
        → i < w.k.depth
        → Apart (w.k.tmp_buf i) 512 w.files 8 × Apart (w.k.tmp_buf i) 512 out total
    pub out_files : Apart out total w.files 8
    pub out_stream : Apart out total w.stream 8
    pub out_disk : Apart out total w.disk 20
    pub out_private : Apart out total w.private 92
    pub out_result : Apart out total w.k.result 2
    pub files_stream : Apart w.files 8 w.stream 8
    pub files_disk : Apart w.files 8 w.disk 20
    pub files_private : Apart w.files 8 w.private 92
    pub files_result : Apart w.files 8 w.k.result 2
    pub fits : out + total < 2 ^ 31

  pub record IsVolume : Type 0 where
    pub low : w.reserved ≤ 31
    pub some_sectors : 0 < w.sectors
    pub few : w.sectors < 2 ^ 8
    pub room : (w.start + 2 ^ 16 * w.sectors) * 512 < 2 ^ 31

  -- The byte `q` is in nothing that a read writes to.
  abbrev pub Outside : ℕ → ℕ → ℕ → Type 0
  Outside out total q = Spares q × Off w.files 4 q × Off out total q

  pub kept-Readable :
      (m n : Ram) (out total : ℕ)
      → Ready out total
      → Readable m
      → ((q : ℕ) → Outside out total q → n q ≡ m q)
      → load32 n (w.files + 4) ≡ w.k.disk_address
      → Readable n
  kept-Readable m n out total a z same d =
      let s = a.separate in
      let in_disk : (q : ℕ) → (w.disk ≤ q) × (q < w.disk + 20) → n q ≡ m q = λ q h. same q (
        (
          λ i p. omega (arith, (s.buffers i p).3),
          omega (arith, s.result_disk),
          omega (arith, s.stream_volume),
        ),
        omega (arith, a.files_disk),
        omega (arith, a.out_disk),
      ) in
      let in_private : (q : ℕ) → (w.private ≤ q) × (q < w.private + 92) → n q ≡ m q = λ q h.
        same q (
          (
            λ i p. omega (arith, (s.buffers i p).4),
            omega (arith, s.result_private),
            omega (arith, s.stream_private),
          ),
          omega (arith, a.files_private),
          omega (arith, a.out_private),
        ) in
      let in_stream : (q : ℕ) → (w.stream + 4 ≤ q) × (q < w.stream + 8) → n q ≡ m q = λ q h.
        same q (
          (λ i p. omega (arith, (s.buffers i p).2), omega (arith, s.result_stream), omega arith),
          omega (arith, a.files_stream),
          omega (arith, a.out_stream),
        ) in
      record {
        mounted =
            kept-Mounted w.k w.busy w.image w.ata w.disk w.private w.stream w.reserved w.sectors m n
              z.mounted in_disk in_private in_stream;
        begins =
            load32_ext n m (w.private + 64 + 12) (λ q i j. in_private q (omega arith)) ∙ z.begins;
        files_disk = d;
      }

  pub Ready-shorter : (out total n : ℕ) → n ≤ total → Ready out total → Ready out n
  Ready-shorter out total n h a = record {
    separate = a.separate;
    deep = a.deep;
    buffers = λ i p. (let (x, y) = a.buffers i p in (x, omega (arith, h, y)));
    out_files = omega (arith, h, a.out_files);
    out_stream = omega (arith, h, a.out_stream);
    out_disk = omega (arith, h, a.out_disk);
    out_private = omega (arith, h, a.out_private);
    out_result = omega (arith, h, a.out_result);
    files_stream = a.files_stream;
    files_disk = a.files_disk;
    files_private = a.files_private;
    files_result = a.files_result;
    fits = omega (arith, h, a.fits);
  }

  pub Ready-behind : (out total n : ℕ) → n ≤ total → Ready out total → Ready (out + n) (total - n)
  Ready-behind out total n h a = record {
    separate = a.separate;
    deep = a.deep;
    buffers = λ i p. (let (x, y) = a.buffers i p in (x, omega (arith, h, y)));
    out_files = omega (arith, h, a.out_files);
    out_stream = omega (arith, h, a.out_stream);
    out_disk = omega (arith, h, a.out_disk);
    out_private = omega (arith, h, a.out_private);
    out_result = omega (arith, h, a.out_result);
    files_stream = a.files_stream;
    files_disk = a.files_disk;
    files_private = a.files_private;
    files_result = a.files_result;
    fits = omega (arith, h, a.fits);
  }

  pub found-Readable :
      (m m1 : Ram) (out total : ℕ)
      → Ready out total
      → Readable m
      → ((q : ℕ) → Spares q → m1 q ≡ m q)
      → Readable m1
  found-Readable m m1 out total a z spared =
      kept-Readable m m1 out total a z (λ q h. spared q h.0)
        (load32_ext m1 m (w.files + 4) (λ q i j. spared q (
          λ b p. omega (arith, (a.buffers b p).0),
          omega (arith, a.files_result),
          omega (arith, a.files_stream),
        ))
          ∙ z.files_disk)
