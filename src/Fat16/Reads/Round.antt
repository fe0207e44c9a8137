-- ===== src/Fat16/Reads/Round.antt =====
-- One call of fat16_read_internal_from_stream, for src/kernel/arch/x86/fs/fat16.c.
use native.Mathlib.Nat.{add-mul, mul-div_left, mul-le-mul_right}
use larva_os.Fat16.Reads.Layout.{
  Reading, Spares, Finds, chained, Readable, Ready, IsVolume, Outside, kept-Readable,
  found-Readable,
}
use larva_os.Base.{
  ℕ, suc, ◌+◌, ◌-◌, ◌*◌, ◌/◌, ◌%◌, ◌^◌, ◌≤◌, ◌<◌, ◌≡◌, refl, ◌∙◌, subst, arith, false,
  if◌then◌else◌, inl, u32, sub32, sdiv, slt, is_neg, Ram, load32, store32, store32_frame,
  load32-store32_ne, load32-store32_self, Option, some, ◌>>=◌,
}
use larva_os.Disk.Stream.{disk_stream_seek}
use larva_os.Disk.Stream.Reads.{FarFrom, disk_stream_read_lem}
use larva_os.Disk.Stream.Round.{StandsAt}
use larva_os.Fat16.{read_stream, fat16_cluster_to_sector}
use larva_os.Fat16.Chains.{cluster_or_error, get_cluster_for_offset_lem, chain-small}
use larva_os.Fat16.Words.{srem}
use larva_os.Fat16.Clusters.{
  fat16_get_cluster_for_offset, fat16_read_internal_from_stream, size_of_cluster_bytes,
}

module _ {Drive : Type 0} (w : Reading Drive) where
  -- Where the bytes of a cluster stand on the disk.
  abbrev pub start_of : ℕ → ℕ
  start_of cluster = (w.start + (cluster - 2) * w.sectors) * 512

  pub start_of-low :
      (cluster : ℕ) → IsVolume w → cluster < 2 ^ 16 → start_of cluster + w.sectors * 512 < 2 ^ 31
  start_of-low cluster v c =
      let behind : cluster - 2 + 1 ≤ 2 ^ 16 = omega (arith, c) in
      omega (arith, v.room, mul-le-mul_right w.sectors behind, add-mul (cluster - 2) 1 w.sectors)

  position_lem :
      (m : Ram) (cluster : ℕ)
      → Readable w m
      → IsVolume w
      → 2 ≤ cluster
      → cluster < 2 ^ 16
      → u32 (u32 (fat16_cluster_to_sector m w.private cluster * 512) + 0) ≡ start_of cluster
  unfolding fat16_cluster_to_sector
  position_lem m cluster z v ok c =
      let low = start_of-low cluster v c in
      let back : sub32 cluster 2 ≡ cluster - 2 = omega (arith, ok, c) in
      let product : u32 ((cluster - 2) * w.sectors) ≡ (cluster - 2) * w.sectors =
        omega (arith, low) in
      let sum : u32 (w.start + (cluster - 2) * w.sectors) ≡ w.start + (cluster - 2) * w.sectors =
        omega (arith, low) in
      rw (z.begins, z.mounted.per_cluster, back, product, sum) (omega (arith, low))

  position-sector : (cluster : ℕ) → start_of cluster % 512 ≡ 0
  position-sector cluster = omega arith

  -- A round at the start of the `n`th cluster has no rest to skip.
  no_rest :
      (n : ℕ)
      → 0 < w.sectors
      → n * (w.sectors * 512) < 2 ^ 31
      → srem (n * (w.sectors * 512)) (w.sectors * 512) ≡ 0
  no_rest n pos low =
      let quotient : n * (w.sectors * 512) / (w.sectors * 512) ≡ n = mul-div_left n (omega arith) in
      let nonneg : sdiv (n * (w.sectors * 512)) (w.sectors * 512) ≡ n = ground (arith, quotient) in
      rw nonneg (omega arith)

  -- One call of disk_stream_read for `n` bytes at the start of a cluster.
  abbrev pub ReadsOne : ℕ → Ram → ℕ → ℕ → Option (ℕ × Drive × Ram) → Type 0
  ReadsOne cluster m out n r =
      (d' : Drive) × (m' : Ram) × (r ≡ some (0, d', m'))
      × Readable w m'
      × ((j : ℕ) → j < n → m' (out + j) ≡ w.image (start_of cluster + j))
      × ((q : ℕ) → Outside w out n q → m' q ≡ m q)

  pub read_one :
      (d : Drive) (m : Ram) (cluster out n : ℕ)
      → Ready w out n
      → Readable w m
      → n ≤ w.sectors * 512
      → start_of cluster + w.sectors * 512 < 2 ^ 31
      → ReadsOne cluster m out n
          (read_stream w.k d (store32 m w.files (start_of cluster)) w.files out n)
  read_one d m cluster out n a z short low =
      let s = a.separate in
      let m2 = store32 m w.files (start_of cluster) in
      let stands : StandsAt w.image w.k.disk_address w.files m2 (start_of cluster) = record {
        at_pos = load32-store32_self m w.files (start_of cluster) (omega (arith, low));
        at_disk =
            load32-store32_ne m w.files (start_of cluster) (w.files + 4) (omega arith)
            ∙ z.files_disk;
      } in
      let far : FarFrom w.k.ports w.busy w.image w.ata w.k.delay w.k.disk_address w.files s.patient
          w.k.tmp_buf w.k.depth out n =
        λ i h. (let (x, y) = a.buffers i h in ((s.buffers i h).0, y, x)) in
      let (d', m', e, holds, stands', frame) =
        disk_stream_read_lem w.k.ports w.busy w.image w.ata w.k.delay w.k.disk_address w.files
          s.patient w.k.tmp_buf w.k.depth d m2 out (start_of cluster) n stands
          (omega (arith, a.deep, short)) s.deep (omega (arith, low, short))
          (inl (position-sector cluster)) far a.out_files in
      let same : (q : ℕ) → Outside w out n q → m' q ≡ m q =
        λ q h. frame q (h.0.0, h.2, h.1) ∙ store32_frame m w.files (start_of cluster) q h.1 in
      (d', m', e, kept-Readable w m m' out n a z same stands'.at_disk, holds, same)

  -- One call of fat16_read_internal_from_stream, whose cluster is found.
  round :
      (fuel : ℕ) (d d1 : Drive) (m m1 : Ram) (first cluster offset total out size position : ℕ)
      → size_of_cluster_bytes m w.disk ≡ size
      → fat16_get_cluster_for_offset w.k d m w.disk first offset ≡ some (cluster, d1, m1)
      → is_neg cluster ≡ false
      → u32 (
          u32
            (fat16_cluster_to_sector m1 (load32 m1 (w.disk + 16)) cluster * load32 m1 (w.disk + 4))
          + srem offset size)
        ≡ position
      → let n = if slt size total then size else total in
        fat16_read_internal_from_stream w.k (suc fuel) d m w.disk w.files first offset total out ≡ (
          read_stream w.k d1 (store32 m1 w.files position) w.files out n
          >>= λ (got : ℕ × Drive × Ram).
              let more =
                fat16_read_internal_from_stream w.k fuel got.1 got.2 w.disk w.files first
                  (u32 (offset + n))
                  (sub32 total n)
                  (u32 (out + n)) in
              if is_neg got.0 then some got else if slt 0 (sub32 total n) then more else some got)
  unfolding fat16_read_internal_from_stream disk_stream_seek
  round fuel d d1 m m1 first cluster offset total out size position s c ok p = rw (s, c, ok, p) refl

  size_lem :
      (m : Ram) → IsVolume w → Readable w m → size_of_cluster_bytes m w.disk ≡ w.sectors * 512
  size_lem m v z =
      let product : w.sectors * 512 % 2 ^ 32 ≡ w.sectors * 512 = omega (arith, v.few) in
      rw (z.mounted.volume, z.mounted.per_cluster, z.mounted.sector) product

  find_lem :
      (d : Drive) (m : Ram) (first cluster n out total : ℕ)
      → IsVolume w
      → Ready w out total
      → Readable w m
      → first < 2 ^ 16
      → n * (w.sectors * 512) < 2 ^ 31
      → chained w n first ≡ some cluster
      → Finds w cluster m
          (fat16_get_cluster_for_offset w.k d m w.disk first (n * (w.sectors * 512)))
  find_lem d m first cluster n out total v a z small low e =
      let whole : n * (w.sectors * 512) / (w.sectors * 512) ≡ n =
        mul-div_left n (omega (arith, v.some_sectors)) in
      let answer : cluster_or_error w.k w.busy w.image w.ata w.disk w.private w.stream w.reserved
            w.sectors (chained w (n * (w.sectors * 512) / (w.sectors * 512)) first)
          ≡ cluster =
        rw (whole, e) refl in
      subst
        (λ c.
          Finds w c m (fat16_get_cluster_for_offset w.k d m w.disk first (n * (w.sectors * 512))))
        answer
        (get_cluster_for_offset_lem w.k w.busy w.image w.ata w.disk w.private w.stream w.reserved
          w.sectors d m first (n * (w.sectors * 512)) a.separate z.mounted v.low small
          v.some_sectors v.few low)

  -- The call for the bytes from the `n`th cluster on.
  abbrev pub reading : ℕ → Drive → Ram → ℕ → ℕ → ℕ → ℕ → Option (ℕ × Drive × Ram)
  reading fuel d m first n total out =
      fat16_read_internal_from_stream w.k fuel d m w.disk w.files first (n * (w.sectors * 512))
        total out

  -- One call, up to what it does with the rest.
  abbrev pub Starts : ℕ → Drive → Ram → ℕ → ℕ → ℕ → ℕ → ℕ → Type 0
  Starts fuel d m first cluster n total out =
      (d1 : Drive) × (m1 : Ram) × Readable w m1
      × ((q : ℕ) → Spares w q → m1 q ≡ m q)
      × (let here = if slt (w.sectors * 512) total then w.sectors * 512 else total in
          reading (suc fuel) d m first n total out ≡ (
            read_stream w.k d1 (store32 m1 w.files (start_of cluster)) w.files out here
            >>= λ (got : ℕ × Drive × Ram).
                let more =
                  fat16_read_internal_from_stream w.k fuel got.1 got.2 w.disk w.files first
                    (u32 (n * (w.sectors * 512) + here)) (sub32 total here) (u32 (out + here)) in
                if is_neg got.0
                then some got
                else if slt 0 (sub32 total here)
                then more
                else some got))

  pub starts_lem :
      (fuel : ℕ) (d : Drive) (m : Ram) (first cluster n total out : ℕ)
      → IsVolume w
      → Ready w out total
      → Readable w m
      → first < 2 ^ 16
      → n * (w.sectors * 512) < 2 ^ 31
      → chained w n first ≡ some cluster
      → 2 ≤ cluster
      → Starts fuel d m first cluster n total out
  starts_lem fuel d m first cluster n total out v a z small low e two =
      let (d1, m1, c, _, spared) = find_lem d m first cluster n out total v a z small low e in
      let z1 = found-Readable w m m1 out total a z spared in
      let c16 =
        chain-small w.k w.busy w.image w.ata w.disk w.private w.stream w.reserved w.sectors n first
          cluster small e in
      let ok : is_neg cluster ≡ false = ground (arith, c16) in
      let position : u32 (
            u32 (
              fat16_cluster_to_sector m1 (load32 m1 (w.disk + 16)) cluster * load32 m1 (w.disk + 4))
            + srem (n * (w.sectors * 512)) (w.sectors * 512))
          ≡ start_of cluster =
        rw (z1.mounted.volume, z1.mounted.sector, no_rest n v.some_sectors low)
          (position_lem m1 cluster z1 v two c16) in
      (
        d1,
        m1,
        z1,
        spared,
        round fuel d d1 m m1 first cluster (n * (w.sectors * 512)) total out (w.sectors * 512)
            (start_of cluster) (size_lem m v z) c ok position,
      )
