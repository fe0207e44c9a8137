-- ===== src/Disk/Drives.antt =====
-- Reading a sector from a drive, for src/kernel/arch/x86/disk/disk.c.
use larva_os.Base.{
  ℕ, zero, suc, ◌+◌, ◌-◌, ◌*◌, ◌/◌, ◌^◌, ◌≤◌, ◌<◌, ◌≡◌, ◌≢◌, refl, ◌∙◌, ap, arith, ◌⊎◌, inl, inr,
  if◌then◌else◌, ==_true, ==_false, ltb, leb, ◌&&◌, bit_and, u8, Ram, write, some,
}
use larva_os.Disk.{
  Ports, command, copy_sectors, copy_words, disk_read_blocks, disk_read_sectors, wait_ready,
}

-- What the ATA standard says of a read of one sector from a drive with the bytes `image`: after
-- the command it is busy for at most `delay` reads of the status, then the flag DRQ is set, and
-- the data port gives the sector's 256 words in order.
pub record IsAta {Drive : Type 0} (ports : Ports Drive) (delay : ℕ) (image : ℕ → ℕ) : Type 1 where
  pub Waits : ℕ → ℕ → Drive → Type 0
  pub Sends : ℕ → ℕ → Drive → Type 0
  pub accepts :
      (d : Drive) (lba : ℕ) → lba < 2 ^ 28 → Waits delay (lba * 512) (command ports d lba 1)
  pub answers :
      (n a : ℕ) (d : Drive)
      → Waits n a d
      → ((bit_and (ports.inb d 0x1f7).0 0x08 ≢ 0) × Sends 256 a (ports.inb d 0x1f7).1)
        ⊎ ((n ≢ 0)
            × (bit_and (ports.inb d 0x1f7).0 0x08 ≡ 0)
            × Waits (n - 1) a (ports.inb d 0x1f7).1)
  pub gives :
      (n a : ℕ) (d : Drive)
      → Sends (suc n) a d
      → ((ports.inw d 0x1f0).0 ≡ image a + 2 ^ 8 * image (a + 1))
        × Sends n (a + 2) (ports.inw d 0x1f0).1
  pub bytes : (a : ℕ) → image a < 2 ^ 8

module _ {Drive : Type 0} (ports : Ports Drive) (delay : ℕ) (image : ℕ → ℕ)
    (ata : IsAta ports delay image) where
  waits_over :
      (fuel n a : ℕ) (d : Drive)
      → n < fuel
      → ata.Waits n a d
      → (d' : Drive) × (wait_ready ports fuel (ports.inb d 0x1f7).1 (ports.inb d 0x1f7).0 ≡ some d')
        × ata.Sends 256 a d'
  unfolding wait_ready
  waits_over zero n a d h w = absurd (omega arith)
  waits_over (suc fuel) n a d h w = elim (ata.answers n a d w) [
    | inl (set, sends) ↦ ((ports.inb d 0x1f7).1, rw (==_false _ _ set) refl, sends)
    | inr (more, clear, waits) ↦
        let (d', e, sends) = waits_over fuel (n - 1) a (ports.inb d 0x1f7).1 (omega arith) waits in
        (d', rw (==_true _ _ clear) e, sends)
  ]

  -- `m'` holds `len` bytes of the image from `a` on at `p` and is as `m` elsewhere.
  abbrev pub Copied : Ram → Ram → ℕ → ℕ → ℕ → Type 0
  Copied m m' p a len =
      (q : ℕ) → m' q ≡ (if leb p q && ltb q (p + len) then image (a + (q - p)) else m q)

  image_at : (x y : ℕ) → x ≡ y → image x ≡ image y
  image_at x y e = ap image e

  after_word :
      (m : Ram) (w p a left q : ℕ)
      → w ≡ image a + 2 ^ 8 * image (a + 1)
      → (if leb (p + 2) q && ltb q (p + 2 + 2 * left)
          then image (a + 2 + (q - (p + 2)))
          else write (write m p (u8 w)) (p + 1) (u8 (w / 2 ^ 8)) q)
        ≡ (if leb p q && ltb q (p + 2 * suc left) then image (a + (q - p)) else m q)
  after_word m w p a left q e = ground (
    arith,
    ata.bytes a,
    ata.bytes (a + 1),
    λ (h : p + 2 ≤ q). image_at (a + 2 + (q - (p + 2))) (a + (q - p)) (omega arith),
    λ (h : q ≡ p). image_at (a + (q - p)) (a) (omega arith),
    λ (h : q ≡ p + 1). image_at (a + (q - p)) (a + 1) (omega arith),
  )

  words-Copied :
      (left a : ℕ) (d : Drive) (m : Ram) (ptr : ℕ)
      → ata.Sends left a d
      → Copied m (copy_words ports left d m ptr).1 ptr a (2 * left)
  unfolding copy_words
  words-Copied zero a d m ptr s q = ground arith
  words-Copied (suc left) a d m ptr s q =
      let (value, sends) = ata.gives left a d s in
      words-Copied left (a + 2) (ports.inw d 0x1f0).1 _ (ptr + 2) sends q
      ∙ after_word m (ports.inw d 0x1f0).0 ptr a left q value

  -- A read of one sector ends on a drive that is ready in time: it returns 0, and the buffer holds
  -- the sector's 512 bytes, and no other byte of the memory is changed.
  pub disk_read_blocks_lem :
      (d : Drive) (m : Ram) (disk_address lba buf fuel : ℕ)
      → lba < 2 ^ 28
      → delay < fuel
      → (d' : Drive) × (m' : Ram) × (disk_read_blocks ports fuel d m disk_address disk_address lba 1
            buf
          ≡ some (0, d', m'))
        × Copied m m' buf (lba * 512) 512
  unfolding disk_read_blocks disk_read_sectors copy_sectors
  disk_read_blocks_lem d m disk_address lba buf fuel h k =
      let (d2, ready, sends) =
        waits_over fuel delay (lba * 512) (command ports d lba 1) k (ata.accepts d lba h) in
      let out = copy_words ports 256 d2 m buf in
      (
        out.0,
        out.1,
        rw (==_true disk_address disk_address refl, ready) refl,
        words-Copied 256 (lba * 512) d2 m buf sends,
      )
