-- ===== src/Disk/Stream/Round.antt =====
-- What one round of a read from a stream does to the memory, for src/kernel/arch/x86/disk/stream.c.
use larva_os.Base.{
  ℕ, zero, suc, ◌+◌, ◌-◌, ◌*◌, ◌/◌, ◌%◌, ◌^◌, ◌≤◌, ◌<◌, ◌≡◌, ◌∙◌, ap, arith, ◌⊎◌, true, false,
  if◌then◌else◌, ltb, leb, ◌&&◌, u32, sub32, slt, Ram, write, load32, store32, store32_frame,
  load32-store32_self, load32_ext,
}
use larva_os.Disk.{disk_sector_size}
use larva_os.Disk.Stream.{copy_from, sector_of, offset_of, rounds_to}

-- Two areas of memory have no byte in common.
abbrev pub Apart : ℕ → ℕ → ℕ → ℕ → Type 0
Apart p n q k = (p + n ≤ q) ⊎ (q + k ≤ p)

pub byte_at : (m : Ram) (x y : ℕ) → x ≡ y → m x ≡ m y
byte_at m x y e = ap m e

pub copy_from_lem :
    (left : ℕ) (m : Ram) (buf from q : ℕ)
    → Apart buf left from left
    → copy_from left m buf from q
      ≡ (if leb buf q && ltb q (buf + left) then m (from + (q - buf)) else m q)
unfolding copy_from
copy_from_lem zero m buf from q h = ground arith
copy_from_lem (suc left) m buf from q h =
    copy_from_lem left (write m buf (m from)) (buf + 1) (from + 1) q (omega arith)
    ∙ ground (
      arith,
      λ (e : q ≡ buf). byte_at m (from + (q - buf)) (from) (omega arith),
      λ (e : buf + 1 ≤ q). byte_at m (from + 1 + (q - (buf + 1))) (from + (q - buf)) (omega arith),
    )

-- The byte `q` is not one of the `n` from `p` on.
abbrev pub Off : ℕ → ℕ → ℕ → Type 0
Off p n q = (q < p) ⊎ (p + n ≤ q)

module _ (image : ℕ → ℕ) (disk_address stream : ℕ) where
  -- The stream stands at `pos` of the disk.
  pub record StandsAt (m : Ram) (pos : ℕ) : Type 0 where
    pub at_pos : load32 m stream ≡ pos
    pub at_disk : load32 m (stream + 4) ≡ disk_address

  abbrev pub Holds : Ram → ℕ → ℕ → ℕ → Type 0
  Holds m buf pos n = (j : ℕ) → j < n → m (buf + j) ≡ image (pos + j)

  module _ (m m1 : Ram) (buf n tmp pos : ℕ) (stands : StandsAt m pos)
      (read : (q : ℕ)
        → m1 q
          ≡ (if leb tmp q && ltb q (tmp + 512) then image (pos / 512 * 512 + (q - tmp)) else m q))
      (far : pos + n < 2 ^ 31) (one : pos % 512 + n ≤ 512) (a : Apart tmp 512 buf n)
      (b : Apart tmp 512 stream 8) (c : Apart buf n stream 8) where
    abbrev pub copied : Ram
    copied = copy_from n m1 buf (tmp + pos % 512)

    abbrev pub moved : Ram
    moved = store32 copied stream (u32 (load32 copied stream + n))

    pub copied_frame : (q : ℕ) → Off tmp 512 q → Off buf n q → copied q ≡ m q
    copied_frame q f g =
        copy_from_lem n m1 buf (tmp + pos % 512) q (omega arith) ∙ ground (arith, read q)

    pub copied-pos : load32 copied stream ≡ pos
    copied-pos =
        load32_ext copied m stream (λ q h k. copied_frame q (omega arith) (omega arith))
        ∙ stands.at_pos

    pub moved_frame : (q : ℕ) → Off tmp 512 q → Off buf n q → Off stream 4 q → moved q ≡ m q
    moved_frame q f g h = store32_frame copied stream _ q h ∙ copied_frame q f g

    pub moved-StandsAt : StandsAt moved (pos + n)
    moved-StandsAt = record {
      at_pos =
          load32-store32_self copied stream (u32 (load32 copied stream + n)) (omega arith)
          ∙ omega (arith, copied-pos);
      at_disk =
          load32_ext moved m (stream + 4)
            (λ q h k. moved_frame q (omega arith) (omega arith) (omega arith))
          ∙ stands.at_disk;
    }

    pub moved-Holds : Holds moved buf pos n
    moved-Holds j h =
        store32_frame copied stream _ (buf + j) (omega arith)
        ∙ copy_from_lem n m1 buf (tmp + pos % 512) (buf + j) (omega arith)
        ∙ ground (
          arith,
          byte_at m1 (tmp + pos % 512 + (buf + j - buf)) (tmp + (pos % 512 + j)) (omega arith),
          read (tmp + (pos % 512 + j)),
          ap image (sector_byte j h),
        )
      where
        sector_byte : (j : ℕ) → j < n → pos / 512 * 512 + (tmp + (pos % 512 + j) - tmp) ≡ pos + j
        sector_byte j h = omega arith

pub slt-small : (total : ℕ) → total ≤ 512 → slt disk_sector_size total ≡ false
slt-small total h = ground arith

pub slt-large : (total : ℕ) → 512 < total → total < 2 ^ 31 → slt disk_sector_size total ≡ true
slt-large total h k = ground arith

pub sector_of-small : (pos : ℕ) → pos < 2 ^ 31 → sector_of pos ≡ pos / 512
unfolding sector_of
sector_of-small pos h = ground arith

pub offset_of-small : (pos : ℕ) → pos < 2 ^ 31 → offset_of pos ≡ pos % 512
unfolding offset_of
offset_of-small pos h = ground arith

pub rounds_to-small : (n : ℕ) → n < 2 ^ 31 → rounds_to n ≡ n
unfolding rounds_to
rounds_to-small n h = ground arith

pub from_small : (tmp pos : ℕ) → tmp + 512 < 2 ^ 32 → u32 (tmp + pos % 512) ≡ tmp + pos % 512
from_small tmp pos h = omega arith

pub sub32-large :
    (total : ℕ) → 512 < total → total < 2 ^ 31 → sub32 total disk_sector_size ≡ total - 512
sub32-large total h k = omega arith

pub ltb-cases : (a b : ℕ) → (a < b) ⊎ (b ≤ a)
ltb-cases a b = ground arith
