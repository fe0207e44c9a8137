-- ===== src/Fat16/Reads.antt =====
-- Reading a file, for src/kernel/arch/x86/fs/fat16.c.
use native.Mathlib.Nat.{add-mul, mul-div_left, mul-le-mul_right, suc-mul}
use larva_os.Fat16.Reads.Layout.{
  Reading, Spares, Finds, chained, Readable, Ready, IsVolume, Outside, kept-Readable, Ready-shorter,
  Ready-behind, found-Readable,
}
use larva_os.Fat16.Reads.Round.{
  start_of, start_of-low, ReadsOne, read_one, reading, Starts, starts_lem,
}
use larva_os.Base.{
  ℕ, zero, suc, ◌+◌, ◌-◌, ◌*◌, ◌/◌, ◌%◌, ◌^◌, ◌≤◌, ◌<◌, ◌≡◌, refl, ◌∙◌, ap, subst, arith, true,
  false, if◌then◌else◌, inl, inr, u32, sub32, sdiv, slt, is_neg, Ram, load32, load32_ext, store32,
  store32_frame, load32-store32_ne, load32-store32_self, Option, none, some, ◌>>=◌,
}
use larva_os.Disk.Drives.{IsAta}
use larva_os.Disk.Stream.{disk_stream_seek}
use larva_os.Disk.Stream.Reads.{FarFrom, disk_stream_read_lem}
use larva_os.Disk.Stream.Round.{Apart, Off, StandsAt, byte_at, ltb-cases}
use larva_os.Fat16.{Machine, read_stream, fat16_cluster_to_sector, fat16_get_first_cluster}
use larva_os.Fat16.Chains.{
  Gives, Mounted, Separate, Spared, chain, cluster_or_error, get_cluster_for_offset_lem,
  chain-small, kept-Mounted,
}
use larva_os.Fat16.Words.{srem}
use larva_os.Fat16.Clusters.{
  fat16_get_cluster_for_offset, fat16_read_internal_from_stream, size_of_cluster_bytes, fat16_read,
}
pub mod Layout
pub mod Round
mod Tests

module _ {Drive : Type 0} (w : Reading Drive) where
  -- From the `n`th cluster on the chain of `first` has a cluster for each byte that is read.
  abbrev pub Listed : ℕ → (ℕ → ℕ) → ℕ → ℕ → Type 0
  Listed first cluster n total =
      (i : ℕ)
      → i * (w.sectors * 512) < total
      → (chained w (n + i) first ≡ some (cluster (n + i))) × (2 ≤ cluster (n + i))

  -- `total` bytes from `out` on are those of the clusters from the `n`th on, one after the other.
  abbrev pub Stored : (ℕ → ℕ) → Ram → ℕ → ℕ → ℕ → Type 0
  Stored cluster m out n total =
      (i j : ℕ)
      → j < w.sectors * 512
      → i * (w.sectors * 512) + j < total
      → m (out + (i * (w.sectors * 512) + j)) ≡ w.image (start_of w (cluster (n + i)) + j)

  abbrev pub ReadsAll : (ℕ → ℕ) → Ram → ℕ → ℕ → ℕ → Option (ℕ × Drive × Ram) → Type 0
  ReadsAll cluster m out n total r =
      (d' : Drive) × (m' : Ram) × (r ≡ some (0, d', m'))
      × Readable w m'
      × Stored cluster m' out n total
      × ((q : ℕ) → Outside w out total q → m' q ≡ m q)

  from_nth :
      (cluster : ℕ → ℕ) (x y j : ℕ)
      → x ≡ y
      → w.image (start_of w (cluster x) + j) ≡ w.image (start_of w (cluster y) + j)
  from_nth cluster x y j e = ap (λ n. w.image (start_of w (cluster n) + j)) e

  Stored-last :
      (cluster : ℕ → ℕ) (m : Ram) (out n total : ℕ)
      → total ≤ w.sectors * 512
      → ((j : ℕ) → j < total → m (out + j) ≡ w.image (start_of w (cluster n) + j))
      → Stored cluster m out n total
  Stored-last cluster m out n total last here zero j b h =
      byte_at m (out + (0 * (w.sectors * 512) + j)) (out + j) (omega arith)
      ∙ here j (omega (arith, h))
      ∙ from_nth cluster n (n + 0) j (omega arith)
  Stored-last cluster m out n total last here (suc i) j b h =
      absurd (omega (arith, suc-mul i (w.sectors * 512), h, last))

  -- The bytes that `out` and what follows it are to hold, once the first cluster is there.
  together :
      (cluster : ℕ → ℕ) (m1 m2 : Ram) (out n total : ℕ)
      → Ready w out total
      → w.sectors * 512 < total
      → ((j : ℕ) → j < w.sectors * 512 → m1 (out + j) ≡ w.image (start_of w (cluster n) + j))
      → Stored cluster m2 (out + w.sectors * 512) (suc n) (total - w.sectors * 512)
      → ((q : ℕ) → Outside w (out + w.sectors * 512) (total - w.sectors * 512) q → m2 q ≡ m1 q)
      → Stored cluster m2 out n total
  together cluster m1 m2 out n total a more here later same zero j b h =
      byte_at m2 (out + (0 * (w.sectors * 512) + j)) (out + j) (omega arith)
      ∙ same (out + j) (
        (
          λ i p. omega (arith, (a.buffers i p).1, more, b),
          omega (arith, a.out_result, more, b),
          omega (arith, a.out_stream, more, b),
        ),
        omega (arith, a.out_files, more, b),
        omega (arith, b),
      )
      ∙ here j b
      ∙ from_nth cluster n (n + 0) j (omega arith)
  together cluster m1 m2 out n total a more here later same (suc i) j b h =
      let next = suc-mul i (w.sectors * 512) in
      byte_at m2 (out + (suc i * (w.sectors * 512) + j))
        (out + w.sectors * 512 + (i * (w.sectors * 512) + j)) (omega (arith, next))
      ∙ later i j b (omega (arith, next, h))
      ∙ from_nth cluster (suc n + i) (n + suc i) j (omega arith)

  Listed-first :
      (first : ℕ) (cluster : ℕ → ℕ) (n total : ℕ)
      → Listed first cluster n total
      → 0 < total
      → (chained w n first ≡ some (cluster n)) × (2 ≤ cluster n)
  Listed-first first cluster n total listed some_bytes =
      subst (λ x. (chained w x first ≡ some (cluster x)) × (2 ≤ cluster x)) (omega arith)
        (listed 0 (omega (arith, some_bytes)))

  Listed-behind :
      (first : ℕ) (cluster : ℕ → ℕ) (n total : ℕ)
      → Listed first cluster n total
      → Listed first cluster (suc n) (total - w.sectors * 512)
  Listed-behind first cluster n total listed i h =
      subst (λ x. (chained w x first ≡ some (cluster x)) × (2 ≤ cluster x)) (omega arith)
        (listed (suc i) (omega (arith, suc-mul i (w.sectors * 512), h)))

  -- The rest fits in one cluster.
  last_lem :
      (fuel n : ℕ) (d : Drive) (m : Ram) (first : ℕ) (cluster : ℕ → ℕ) (out total : ℕ)
      → Ready w out total
      → start_of w (cluster n) + w.sectors * 512 < 2 ^ 31
      → total ≤ w.sectors * 512
      → Starts w fuel d m first (cluster n) n total out
      → ReadsAll cluster m out n total (reading w (suc fuel) d m first n total out)
  last_lem fuel n d m first cluster out total a high last (d1, m1, z1, spared, go) =
      let (d2, m2, r, z2, here, same) = read_one w d1 m1 (cluster n) out total a z1 last high in
      let one : slt (w.sectors * 512) total ≡ false = ground (arith, a.fits, last) in
      let none_left : sub32 total total ≡ 0 = omega (arith, a.fits) in
      rw (go, one, r, none_left)
        (
          d2,
          m2,
          refl,
          z2,
          Stored-last cluster m2 out n total last here,
          λ q h. same q h ∙ spared q h.0,
        )

  -- One cluster is read, and `rest` is what the call for the rest does.
  more_lem :
      (fuel n : ℕ) (d : Drive) (m : Ram) (first : ℕ) (cluster : ℕ → ℕ) (out total : ℕ)
      → Ready w out total
      → start_of w (cluster n) + w.sectors * 512 < 2 ^ 31
      → w.sectors * 512 < total
      → n * (w.sectors * 512) + total < 2 ^ 31
      → ((d2 : Drive) (m2 : Ram)
          → Readable w m2
          → ReadsAll cluster m2 (out + w.sectors * 512) (suc n) (total - w.sectors * 512) (
              reading w fuel d2 m2 first (suc n) (total - w.sectors * 512) (out + w.sectors * 512)))
      → Starts w fuel d m first (cluster n) n total out
      → ReadsAll cluster m out n total (reading w (suc fuel) d m first n total out)
  more_lem fuel n d m first cluster out total a high more low rest (d1, m1, z1, spared, go) =
      let size = w.sectors * 512 in
      let (d2, m2, r, z2, here, same) =
        read_one w d1 m1 (cluster n) out size
          (Ready-shorter w out total size (omega (arith, more)) a) z1 (omega arith) high in
      let some_more : slt size total ≡ true = ground (arith, a.fits, more) in
      let left : sub32 total size ≡ total - size = omega (arith, a.fits, more) in
      let some_left : slt 0 (total - size) ≡ true = ground (arith, a.fits, more) in
      let next : u32 (n * size + size) ≡ suc n * size = omega (arith, suc-mul n size, low, more) in
      let next_out : u32 (out + size) ≡ out + size = omega (arith, a.fits, more) in
      let (d3, m3, r3, z3, later, same3) = rest d2 m2 z2 in
      rw (go, some_more, r, left, some_left, next, next_out, r3)
        (
          d3,
          m3,
          refl,
          z3,
          together cluster m2 m3 out n total a more here later same3,
          λ q h.
              same3 q (h.0, h.1, omega (arith, h.2, more))
              ∙ same q (h.0, h.1, omega (arith, h.2, more))
              ∙ spared q h.0,
        )

  whole_lem :
      (fuel n : ℕ) (d : Drive) (m : Ram) (first : ℕ) (cluster : ℕ → ℕ) (out total : ℕ)
      → IsVolume w
      → Ready w out total
      → Readable w m
      → first < 2 ^ 16
      → Listed first cluster n total
      → 0 < total
      → total ≤ fuel * (w.sectors * 512)
      → n * (w.sectors * 512) + total < 2 ^ 31
      → ReadsAll cluster m out n total (reading w fuel d m first n total out)
  whole_lem zero n d m first cluster out total v a z small listed some_bytes enough low =
      absurd (omega (arith, some_bytes, enough))
  whole_lem (suc fuel) n d m first cluster out total v a z small listed some_bytes enough low =
      let size = w.sectors * 512 in
      let (e, two) = Listed-first first cluster n total listed some_bytes in
      let starts =
        starts_lem w fuel d m first (cluster n) n total out v a z small (omega (arith, low)) e
          two in
      let high = start_of-low w (cluster n) v (
        chain-small w.k w.busy w.image w.ata w.disk w.private w.stream w.reserved w.sectors n first
          (cluster n) small e) in
      elim (ltb-cases size total) [
        | inr last ↦ last_lem fuel n d m first cluster out total a high last starts
        | inl more ↦
            more_lem fuel n d m first cluster out total a high more low
              (λ d2 m2 z2.
                whole_lem fuel (suc n) d2 m2 first cluster (out + size) (total - size) v
                  (Ready-behind w out total size (omega (arith, more)) a) z2 small
                  (Listed-behind first cluster n total listed) (omega (arith, more))
                  (omega (arith, suc-mul fuel size, enough))
                  (omega (arith, suc-mul n size, low, more)))
              starts
      ]

  -- The descriptor at `p` stands at byte `pos` of a file whose first cluster is `first`, and the
  -- private data has the stream for the files.
  pub record Opened (m : Ram) (p first pos : ℕ) : Type 0 where
    pub first_cluster : fat16_get_first_cluster m (load32 m (load32 m p)) ≡ first
    pub stands : load32 m (p + 4) ≡ pos
    pub has_files : load32 m (w.private + 80) ≡ w.files

  -- What fat16_read does for one member of `total` bytes from the `n`th cluster on.
  abbrev pub Reads : (ℕ → ℕ) → Ram → ℕ → ℕ → ℕ → Option (ℕ × Drive × Ram) → Type 0
  Reads cluster m out n total r =
      (d' : Drive) × (m' : Ram) × (r ≡ some (1, d', m'))
      × Readable w m'
      × Stored cluster m' out n total
      × ((q : ℕ) → Outside w out total q → m' q ≡ m q)

  -- fat16_read for one member of `total` bytes, from the start of the `n`th cluster of a file on,
  -- ends with as many calls of itself as the bytes fill clusters, and returns 1. Then the buffer
  -- holds the bytes of the clusters one after the other, whatever their order on the disk, and no
  -- byte is changed but those of the buffers, of `result` and of the positions of the two streams:
  -- the position of the descriptor is kept. The clusters are those of the chain that the code
  -- reads. The drive keeps to ATA, the objects have no byte in common, the chain has a cluster from
  -- 2 on for each byte, a cluster has 1 to 255 sectors, the table does not begin behind sector 31,
  -- and buffer, offset and volume end below 2 ^ 31.
  pub fat16_read_lem :
      (fuel n : ℕ) (d : Drive) (m : Ram) (p first : ℕ) (cluster : ℕ → ℕ) (out total : ℕ)
      → IsVolume w
      → Ready w out total
      → Readable w m
      → Opened m p first (n * (w.sectors * 512))
      → first < 2 ^ 16
      → Listed first cluster n total
      → 0 < total
      → total ≤ fuel * (w.sectors * 512)
      → n * (w.sectors * 512) + total < 2 ^ 31
      → Reads cluster m out n total (fat16_read w.k fuel d m w.disk p total 1 out)
  unfolding fat16_read
  fat16_read_lem fuel n d m p first cluster out total v a z o small listed some_bytes enough low =
      let (d', m', e, z', stored, same) =
        whole_lem fuel n d m first cluster out total v a z small listed some_bytes enough low in
      rw (o.first_cluster, o.stands, z.mounted.volume, o.has_files, e)
        (d', m', refl, z', stored, same)
