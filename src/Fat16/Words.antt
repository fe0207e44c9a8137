-- ===== src/Fat16/Words.antt =====
-- 16-bit words and remainders for src/kernel/arch/x86/fs/fat16.c.
use larva_os.Base.{ℕ, ◌+◌, ◌*◌, ◌/◌, ◌^◌, Ram, write, u8, u32, sub32, sdiv}

-- A `uint16_t` in the memory.
unfoldable pub load16 : Ram → ℕ → ℕ
load16 m p = m p + 2 ^ 8 * m (p + 1)

unfoldable pub store16 : Ram → ℕ → ℕ → Ram
store16 m p v = write (write m p (u8 v)) (p + 1) (u8 (v / 2 ^ 8))

-- `x % d` on `int`.
abbrev pub srem : ℕ → ℕ → ℕ
srem x d = sub32 x (u32 (sdiv x d * d))
