-- ===== src/Fat16/Seek.antt =====
-- The position of an open file, for src/kernel/arch/x86/fs/fat16.c.
use larva_os.Base.{
  ℕ, ◌+◌, ◌^◌, ◌<◌, ◌≡◌, refl, ◌∙◌, ap, arith, false, leb, u32, Ram, load32, load32_ext, store32,
  store32_frame, load32-store32_self,
}
use larva_os.Disk.Stream.Round.{Apart}
use larva_os.Fat16.{fat16_seek, fat_item_type_file, seek_cur, seek_set}

-- `p` is the descriptor of a file of `size` bytes, whose objects do not overlap its position.
pub record IsOpen (m : Ram) (p desc_item item size : ℕ) : Type 0 where
  pub item_of : load32 m p ≡ desc_item
  pub entry_of : load32 m desc_item ≡ item
  pub is_file : load32 m (desc_item + 4) ≡ fat_item_type_file
  pub size_of : load32 m (item + 28) ≡ size
  pub item_apart : Apart (p + 4) 4 desc_item 8
  pub entry_apart : Apart (p + 4) 4 item 32

module _ (p desc_item item size : ℕ) where
  moved-IsOpen :
      (m : Ram) (v : ℕ)
      → IsOpen m p desc_item item size
      → IsOpen (store32 m (p + 4) v) p desc_item item size
  moved-IsOpen m v z = record {
    item_of =
        load32_ext (store32 m (p + 4) v) m p (λ q i j. store32_frame m (p + 4) v q (omega arith))
        ∙ z.item_of;
    entry_of =
        load32_ext (store32 m (p + 4) v) m desc_item
          (λ q i j. store32_frame m (p + 4) v q (omega (arith, z.item_apart)))
        ∙ z.entry_of;
    is_file =
        load32_ext (store32 m (p + 4) v) m (desc_item + 4)
          (λ q i j. store32_frame m (p + 4) v q (omega (arith, z.item_apart)))
        ∙ z.is_file;
    size_of =
        load32_ext (store32 m (p + 4) v) m (item + 28)
          (λ q i j. store32_frame m (p + 4) v q (omega (arith, z.entry_apart)))
        ∙ z.size_of;
    item_apart = z.item_apart;
    entry_apart = z.entry_apart;
  }

  leb-small : (offset : ℕ) → offset < size → leb size offset ≡ false
  leb-small offset h = ground arith

  seek-set :
      (m : Ram) (offset : ℕ)
      → IsOpen m p desc_item item size
      → offset < size
      → fat16_seek m p offset seek_set ≡ (0, store32 m (p + 4) offset)
  unfolding fat16_seek
  seek-set m offset z h = rw (z.item_of, z.entry_of, z.is_file, z.size_of, leb-small offset h) refl

  seek-cur :
      (m : Ram) (offset : ℕ)
      → IsOpen m p desc_item item size
      → offset < size
      → fat16_seek m p offset seek_cur ≡ (0, store32 m (p + 4) (u32 (load32 m (p + 4) + offset)))
  unfolding fat16_seek
  seek-cur m offset z h = rw (z.item_of, z.entry_of, z.is_file, z.size_of, leb-small offset h) refl

  -- A seek to `offset` and then by `more` from there both return 0 and leave the position at their
  -- sum, which may lie behind the end of the file: each is below the size of the file, but nothing
  -- bounds the sum but 2 ^ 32.
  pub seek_beyond :
      (m : Ram) (offset more : ℕ)
      → IsOpen m p desc_item item size
      → offset < size
      → more < size
      → offset + more < 2 ^ 32
      → let (first, m1) = fat16_seek m p offset seek_set in
        let (second, m2) = fat16_seek m1 p more seek_cur in
        (first ≡ 0) × (second ≡ 0) × (load32 m2 (p + 4) ≡ offset + more)
  seek_beyond m offset more z h k fits =
      let z1 = moved-IsOpen m offset z in
      let m1 = store32 m (p + 4) offset in
      rw (seek-set m offset z h, seek-cur m1 more z1 k)
        (
          refl,
          refl,
          load32-store32_self m1 (p + 4) (u32 (load32 m1 (p + 4) + more)) (omega arith)
              ∙ ap (λ x. u32 (x + more)) (load32-store32_self m (p + 4) offset (omega arith))
              ∙ omega arith,
        )
