-- ===== src/Base/Bytes.antt =====
-- The memory that the kernel's pointers address: one byte at each address.
use Prim.Native.Nat.{ℕ, ◌+◌, ◌%◌, ◌*◌, ◌/◌, ◌^◌, ◌≤◌, ◌<◌}
use mathlib.Core.Path.{◌≡◌}
use mathlib.Core.Logic.{◌⊎◌}
use native.Mathlib.Omega.{arith}
use larva_os.Base.Tests.{◌==◌, if◌then◌else◌}
use larva_os.Base.Words.{u8, u32}

abbrev pub Ram : Type 0
Ram = ℕ → ℕ

-- `*p = v` on bytes.
abbrev pub write : Ram → ℕ → ℕ → Ram
write m p v q = if q == p then v else m q

-- The address of `p[i]` in an array of bytes. The index may be the pattern of a negative number.
abbrev pub at : ℕ → ℕ → ℕ
at p i = u32 (p + i)

-- `*(uint32_t *)p`: four bytes, the lowest first.
unfoldable pub load32 : Ram → ℕ → ℕ
load32 m p = m p + m (p + 1) * 2 ^ 8 + m (p + 2) * 2 ^ 16 + m (p + 3) * 2 ^ 24

unfoldable pub store32 : Ram → ℕ → ℕ → Ram
store32 m p v =
    write (write (write (write m p (u8 v)) (p + 1) (u8 (v / 2 ^ 8))) (p + 2) (u8 (v / 2 ^ 16)))
      (p + 3) (u8 (v / 2 ^ 24))

pub load32-store32_self : (m : Ram) (p v : ℕ) → v < 2 ^ 32 → load32 (store32 m p v) p ≡ v
unfolding load32 store32
load32-store32_self m p v h = ground arith

pub store32_frame : (m : Ram) (p v q : ℕ) → (q < p) ⊎ (p + 4 ≤ q) → store32 m p v q ≡ m q
unfolding store32
store32_frame m p v q h = ground arith

pub load32-store32_ne :
    (m : Ram) (p v q : ℕ) → (q + 4 ≤ p) ⊎ (p + 4 ≤ q) → load32 (store32 m p v) q ≡ load32 m q
unfolding load32
load32-store32_ne m p v q h = ground (
  arith,
  store32_frame m p v q,
  store32_frame m p v (q + 1),
  store32_frame m p v (q + 2),
  store32_frame m p v (q + 3),
)

-- The words agree where the bytes do.
pub load32_ext :
    (m n : Ram) (p : ℕ) → ((q : ℕ) → p ≤ q → q < p + 4 → m q ≡ n q) → load32 m p ≡ load32 n p
unfolding load32
load32_ext m n p h = ground (arith, h p, h (p + 1), h (p + 2), h (p + 3))

-- A word is known by its bytes.
pub load32_of_bytes :
    (m : Ram) (p v : ℕ)
    → v < 2 ^ 32
    → m p ≡ v % 256
    → m (p + 1) ≡ v / 2 ^ 8 % 256
    → m (p + 2) ≡ v / 2 ^ 16 % 256
    → m (p + 3) ≡ v / 2 ^ 24 % 256
    → load32 m p ≡ v
unfolding load32
load32_of_bytes m p v h a b c d = omega arith
