-- ===== src/Fat16/Chains.antt =====
-- The chain of clusters of a file, for src/kernel/arch/x86/fs/fat16.c.
use larva_os.Base.{
  Bool, true, false, if◌then◌else◌, ℕ, zero, suc, ◌+◌, ◌*◌, ◌/◌, ◌%◌, ◌^◌, ◌≤◌, ◌<◌, ◌≡◌, ◌≢◌, refl,
  ◌∙◌, ap, ap₂, arith, if◌then◌else◌, ==_false, inl, inr, Bool-cases, sdiv, neg32, eio, null, Ram,
  List, [], ◌∷◌, ◌==◌, load32, load32_ext, store32, store32_frame, load32-store32_self, Option,
  none, some,
}
use native.Mathlib.Nat.{mul_assoc, mul_left_comm, mul-le-mul_left, mul-le-mul_right, div-le_self}
use larva_os.Disk.Drives.{IsAta}
use larva_os.Disk.Stream.{disk_stream_seek, rounds_to}
use larva_os.Disk.Stream.Reads.{FarFrom, disk_stream_read_lem}
use larva_os.Disk.Stream.Round.{Apart, Off, StandsAt}
use larva_os.Fat16.{Machine}
use larva_os.Fat16.Clusters.{
  ends_chain, fat16_get_cluster_for_offset, fat16_get_fat_entry, fat_entry_position, follow_chain,
}
use larva_os.Fat16.Words.{load16, store16}

if_none : (b : Bool) (r : Option ℕ) (x : ℕ) → (if b then none else r) ≡ some x → r ≡ some x
if_none true r x e = cc
if_none false r x e = e

module _ {Drive : Type 0} (k : Machine Drive) (busy : ℕ) (image : ℕ → ℕ)
    (ata : IsAta k.ports busy image) (disk private stream reserved sectors : ℕ) where
  -- The disk has a FAT16 volume, whose structures stand where the kernel put them.
  pub record Mounted (m : Ram) : Type 0 where
    pub volume : load32 m (disk + 16) ≡ private
    pub sector : load32 m (disk + 4) ≡ 512
    pub per_cluster : m (private + 13) ≡ sectors
    pub before_fat : load16 m (private + 14) ≡ reserved
    pub fat_stream : load32 m (private + 84) ≡ stream
    pub stream_disk : load32 m (stream + 4) ≡ k.disk_address

  -- The objects have no byte in common with each other or with a buffer on the stack.
  pub record Separate : Type 0 where
    pub patient : busy < k.delay
    pub deep : 0 < k.depth
    pub present : stream ≢ null
    pub buffers :
        (i : ℕ)
        → i < k.depth
        → (k.tmp_buf i + 512 < 2 ^ 32)
          × Apart (k.tmp_buf i) 512 k.result 2
          × Apart (k.tmp_buf i) 512 stream 8
          × Apart (k.tmp_buf i) 512 disk 20
          × Apart (k.tmp_buf i) 512 private 92
    pub result_stream : Apart k.result 2 stream 8
    pub result_disk : Apart k.result 2 disk 20
    pub result_private : Apart k.result 2 private 92
    pub stream_private : Apart stream 8 private 92
    pub stream_volume : Apart stream 8 disk 20

  -- The position that the code reads the entry of a cluster from.
  abbrev pub place : ℕ → ℕ
  place cluster = reserved * 512 * (cluster * 2)

  abbrev pub entry_at : ℕ → ℕ
  entry_at cluster = image (place cluster) + 2 ^ 8 * image (place cluster + 1)

  pub kept-Mounted :
      (m n : Ram)
      → Mounted m
      → ((q : ℕ) → (disk ≤ q) × (q < disk + 20) → n q ≡ m q)
      → ((q : ℕ) → (private ≤ q) × (q < private + 92) → n q ≡ m q)
      → ((q : ℕ) → (stream + 4 ≤ q) × (q < stream + 8) → n q ≡ m q)
      → Mounted n
  unfolding load16
  kept-Mounted m n z d p s = record {
    volume = load32_ext n m (disk + 16) (λ q i j. d q (omega arith)) ∙ z.volume;
    sector = load32_ext n m (disk + 4) (λ q i j. d q (omega arith)) ∙ z.sector;
    per_cluster = p (private + 13) (omega arith) ∙ z.per_cluster;
    before_fat =
        ap₂ (λ (a b : ℕ). a + 2 ^ 8 * b) (p (private + 14) (omega arith))
          (p (private + 14 + 1) (omega arith))
        ∙ z.before_fat;
    fat_stream = load32_ext n m (private + 84) (λ q i j. p q (omega arith)) ∙ z.fat_stream;
    stream_disk = load32_ext n m (stream + 4) (λ q i j. s q (omega arith)) ∙ z.stream_disk;
  }

  place-sector : (cluster : ℕ) → place cluster % 512 ≡ 0
  place-sector cluster =
      omega (arith, mul_assoc reserved 512 (cluster * 2), mul_left_comm reserved 512 (cluster * 2))

  fat_entry_position_lem :
      (m : Ram) (cluster : ℕ)
      → Mounted m
      → reserved < 2 ^ 16
      → cluster < 2 ^ 16
      → place cluster < 2 ^ 31
      → fat_entry_position m disk cluster ≡ place cluster
  fat_entry_position_lem m cluster z r c low =
      let first : reserved * 512 % 2 ^ 32 ≡ reserved * 512 = omega arith in
      let second : cluster * 2 % 2 ^ 32 ≡ cluster * 2 = omega arith in
      rw (z.volume, z.before_fat, z.sector, first, second) (omega arith)

  -- The memory when the entry is read: the stream stands at it, and `result` is 0.
  abbrev asked : Ram → ℕ → Ram
  asked m cluster = store16 (store32 m stream (place cluster)) k.result 0

  asked_frame :
      (m : Ram) (cluster q : ℕ) → Off stream 4 q → Off k.result 2 q → asked m cluster q ≡ m q
  unfolding store16
  asked_frame m cluster q a b = ground (arith, store32_frame m stream (place cluster) q)

  asked-StandsAt :
      (m : Ram) (cluster : ℕ)
      → Separate
      → Mounted m
      → place cluster < 2 ^ 31
      → StandsAt image k.disk_address stream (asked m cluster) (place cluster)
  unfolding store16
  asked-StandsAt m cluster apart z low = record {
    at_pos =
        load32_ext (asked m cluster) (store32 m stream (place cluster)) stream
          (λ q i j. ground (arith, apart.result_stream))
        ∙ load32-store32_self m stream (place cluster) (omega arith);
    at_disk =
        load32_ext (asked m cluster) m (stream + 4)
          (λ q i j. asked_frame m cluster q (omega arith) (omega (arith, apart.result_stream)))
        ∙ z.stream_disk;
  }

  -- The byte `q` is not in a buffer on the stack, in `result` or in the position of the stream.
  abbrev pub Spared : ℕ → Type 0
  Spared q = ((i : ℕ) → i < k.depth → Off (k.tmp_buf i) 512 q) × Off k.result 2 q × Off stream 4 q

  -- The result is `answer`, the structures of the volume are kept, and no other byte is changed.
  abbrev pub Gives : ℕ → Ram → Option (ℕ × Drive × Ram) → Type 0
  Gives answer m r =
      (d' : Drive) × (m' : Ram) × (r ≡ some (answer, d', m'))
      × Mounted m'
      × ((q : ℕ) → Spared q → m' q ≡ m q)

  fetch_lem :
      (d : Drive) (m : Ram) (cluster : ℕ)
      → Separate
      → Mounted m
      → reserved < 2 ^ 16
      → cluster < 2 ^ 16
      → place cluster + 2 < 2 ^ 31
      → Gives (entry_at cluster) m (fat16_get_fat_entry k d m disk cluster)
  unfolding fat16_get_fat_entry disk_stream_seek load16
  fetch_lem d m cluster apart z r c low =
      let stands = asked-StandsAt m cluster apart z (omega arith) in
      let far : FarFrom k.ports busy image ata k.delay k.disk_address stream apart.patient k.tmp_buf
          k.depth k.result 2 =
        λ i h. (let (a, b, c, _, _) = apart.buffers i h in (a, b, c)) in
      let (d', m', e, holds, stands', frame) =
        disk_stream_read_lem k.ports busy image ata k.delay k.disk_address stream apart.patient
          k.tmp_buf k.depth d (asked m cluster) k.result (place cluster) 2 stands
          (omega (arith, apart.deep)) apart.deep low (inl (place-sector cluster)) far
          apart.result_stream in
      let position = fat_entry_position_lem m cluster z r c (omega arith) in
      let word : m' k.result + 2 ^ 8 * m' (k.result + 1) ≡ entry_at cluster =
        ap₂ (λ (a b : ℕ). a + 2 ^ 8 * b)
          (ap m' (omega arith) ∙ holds 0 (omega arith) ∙ ap image (omega arith))
          (holds 1 (omega arith)) in
      let spared : (q : ℕ) → Spared q → m' q ≡ m q =
        λ q h. frame q h ∙ asked_frame m cluster q h.2 h.1 in
      let mounted : Mounted m' =
        kept-Mounted m m' z
          (λ q h. spared q (
            λ i p. omega (arith, (apart.buffers i p).3),
            omega (arith, apart.result_disk),
            omega (arith, apart.stream_volume),
          ))
          (λ q h. spared q (
            λ i p. omega (arith, (apart.buffers i p).4),
            omega (arith, apart.result_private),
            omega (arith, apart.stream_private),
          ))
          (λ q h. spared q (
            λ i p. omega (arith, (apart.buffers i p).2),
            omega (arith, apart.result_stream),
            omega arith,
          )) in
      rw (position, z.volume, z.fat_stream, ==_false _ _ apart.present, e)
        (d', m', ap (λ v. some (v, d', m')) word, mounted, spared)

  -- The words that stand for no further cluster, and whether a word is one of them.
  abbrev pub end_words : List ℕ
  end_words = 0 ∷ 0xff0 ∷ 0xff6 ∷ 0xff7 ∷ 0xff8 ∷ 0xfff ∷ []

  abbrev pub has : List ℕ → ℕ → Bool
  has [] entry = false
  has (x ∷ xs) entry = (let rest = has xs entry in if entry == x then true else rest)

  pub ends_chain_lem : (entry : ℕ) → ends_chain entry ≡ has end_words entry
  ends_chain_lem entry = ground arith

  -- The `n`th cluster behind `cluster`, or `none` where the chain ends before it.
  unfoldable pub chain : ℕ → ℕ → Option ℕ
  chain zero cluster = some cluster
  chain (suc n) cluster =
      let rest = chain n (entry_at cluster) in
      if has end_words (entry_at cluster) then none else rest

  entry-small : (cluster : ℕ) → entry_at cluster < 2 ^ 16
  entry-small cluster = omega (arith, ata.bytes (place cluster), ata.bytes (place cluster + 1))

  pub chain-small : (n c cluster : ℕ) → c < 2 ^ 16 → chain n c ≡ some cluster → cluster < 2 ^ 16
  unfolding chain
  chain-small zero c cluster small e = ground (arith, e)
  chain-small (suc n) c cluster small e =
      chain-small n (entry_at c) cluster (entry-small c)
        (if_none (has end_words (entry_at c)) (chain n (entry_at c)) cluster e)

  abbrev pub cluster_or_error : Option ℕ → ℕ
  cluster_or_error none = neg32 eio
  cluster_or_error (some cluster) = cluster

  -- The table lies so low on the disk that no entry is out of reach.
  abbrev pub InReach : Type 0
  InReach = (cluster : ℕ) → cluster < 2 ^ 16 → place cluster + 2 < 2 ^ 31

  follow_chain_lem :
      (left : ℕ) (d : Drive) (m : Ram) (cluster : ℕ)
      → Separate
      → Mounted m
      → reserved < 2 ^ 16
      → cluster < 2 ^ 16
      → InReach
      → Gives (cluster_or_error (chain left cluster)) m (follow_chain k left d m disk cluster)
  unfolding chain follow_chain
  follow_chain_lem zero d m cluster apart z r c reach = (d, m, refl, z, λ q h. refl)
  follow_chain_lem (suc left) d m cluster apart z r c reach =
      let (d', m', e, z', spared) = fetch_lem d m cluster apart z r c (reach cluster c) in
      let small = entry-small cluster in
      rw (e, ends_chain_lem (entry_at cluster))
        (elim (Bool-cases (has end_words (entry_at cluster))) [
          | inl end ↦ rw end (d', m', refl, z', spared)
          | inr on ↦
              let (d2, m2, e2, z2, later) =
                follow_chain_lem left d' m' (entry_at cluster) apart z' r small reach in
              rw on (d2, m2, e2, z2, λ q h. later q h ∙ spared q h)
        ])

  in_reach : reserved ≤ 31 → InReach
  in_reach r cluster h =
      let low : reserved * 512 ≤ 31 * 512 = omega (arith, r) in
      omega (arith, mul-le-mul_right (cluster * 2) low)

  -- fat16_get_fat_entry returns the two bytes at `place` and changes nothing but its buffers and
  -- the position of the stream; and these bytes are not the entry: that stands where the table
  -- begins, at `reserved * 512`, and two bytes further for each cluster. The objects have no byte
  -- in common, the drive keeps to ATA, the table does not begin in sector 0 and not behind sector
  -- 31, and the cluster is not 0 and below 2 ^ 16.
  pub get_fat_entry_misplaced :
      (d : Drive) (m : Ram) (cluster : ℕ)
      → Separate
      → Mounted m
      → 0 < reserved
      → reserved ≤ 31
      → 0 < cluster
      → cluster < 2 ^ 16
      → Gives (entry_at cluster) m (fat16_get_fat_entry k d m disk cluster)
        × (reserved * 512 + cluster * 2 < place cluster)
  get_fat_entry_misplaced d m cluster apart z begins r some_cluster c =
      let least : 512 ≤ reserved * 512 = omega (arith, begins) in
      let two : 2 ≤ cluster * 2 = omega (arith, some_cluster) in
      (
        fetch_lem d m cluster apart z (omega arith) c (in_reach r cluster c),
        omega (arith, mul-le-mul_right (cluster * 2) least, mul-le-mul_left (reserved * 512) two),
      )

  rounds_lem : (offset size : ℕ) → offset < 2 ^ 31 → rounds_to (sdiv offset size) ≡ offset / size
  unfolding rounds_to
  rounds_lem offset size low = ground (arith, div-le_self offset size)

  -- fat16_get_cluster_for_offset ends, changes nothing but its buffers and the position of the
  -- stream of the table, and returns the cluster that many clusters down the chain as the offset is
  -- long, or -EIO where the chain ends before it. The chain is the one of the entries that the code
  -- reads, which stand at `place`, and it ends at an entry that is 0, 0xff0, 0xff6, 0xff7, 0xff8 or
  -- 0xfff. The objects have no byte in common, the drive keeps to ATA, the
  -- table does not begin behind sector 31, a cluster has 1 to 255 sectors, the first cluster is
  -- below 2 ^ 16, and the offset is not negative.
  pub get_cluster_for_offset_lem :
      (d : Drive) (m : Ram) (cluster offset : ℕ)
      → Separate
      → Mounted m
      → reserved ≤ 31
      → cluster < 2 ^ 16
      → 0 < sectors
      → sectors < 2 ^ 8
      → offset < 2 ^ 31
      → Gives
          (cluster_or_error (chain (offset / (sectors * 512)) cluster))
          m
          (fat16_get_cluster_for_offset k d m disk cluster offset)
  unfolding fat16_get_cluster_for_offset
  get_cluster_for_offset_lem d m cluster offset apart z r c some_sectors few low =
      let size : sectors * 512 % 2 ^ 32 ≡ sectors * 512 = omega arith in
      let rounds = rounds_lem offset (sectors * 512) low in
      rw (z.volume, z.per_cluster, z.sector, size, rounds)
        (follow_chain_lem (offset / (sectors * 512)) d m cluster apart z (omega arith) c
          (in_reach r))
