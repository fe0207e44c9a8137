-- ===== src/Base/Words.antt =====
-- C's 32-bit integers and pointers. A value is its bit pattern, a number below 2 ^ 32, so a cast
-- between `int`, `uint32_t`, `size_t` and a pointer changes nothing.
use Prim.Native.Nat.{ℕ, ◌+◌, ◌-◌, ◌*◌, ◌/◌, ◌%◌, ◌^◌}
use mathlib.Core.Bool.{Bool}
use larva_os.Base.Tests.{leb, ltb, if◌then◌else◌}

abbrev pub u8 : ℕ → ℕ
u8 n = n % 2 ^ 8

abbrev pub u16 : ℕ → ℕ
u16 n = n % 2 ^ 16

abbrev pub u32 : ℕ → ℕ
u32 n = n % 2 ^ 32

-- `a - b`, which wraps.
abbrev pub sub32 : ℕ → ℕ → ℕ
sub32 a b = (a + 2 ^ 32 - b) % 2 ^ 32

-- The pattern of the `int` -e, for 0 < e.
abbrev pub neg32 : ℕ → ℕ
neg32 e = 2 ^ 32 - e

-- `x < 0` on `int`.
abbrev pub is_neg : ℕ → Bool
is_neg x = leb (2 ^ 31) x

-- `x / d` on `int`, at a constant 0 < d: it rounds towards 0.
abbrev pub sdiv : ℕ → ℕ → ℕ
sdiv x d = if is_neg x then u32 (2 ^ 32 - (2 ^ 32 - x) / d) else x / d

-- `a < b` on `int`: moving both by 2 ^ 31 makes it the order of the patterns.
abbrev pub slt : ℕ → ℕ → Bool
slt a b = ltb (u32 (a + 2 ^ 31)) (u32 (b + 2 ^ 31))

infixl 75 ◌<<<◌ ◌>>>◌
abbrev pub ◌<<<◌ : ℕ → ℕ → ℕ
x <<< k = x * 2 ^ k

abbrev pub ◌>>>◌ : ℕ → ℕ → ℕ
x >>> k = x / 2 ^ k

-- errno.h.
abbrev pub eio : ℕ
eio = 5

abbrev pub esrch : ℕ
esrch = 3

abbrev pub enomem : ℕ
enomem = 12

abbrev pub einval : ℕ
einval = 22

abbrev pub erofs : ℕ
erofs = 30

abbrev pub null : ℕ
null = 0

-- An error as a pointer, `ERR_PTR`, and its test: the last 4095 addresses.
abbrev pub max_errno : ℕ
max_errno = 4095

abbrev pub is_err : ℕ → Bool
is_err ptr = leb (2 ^ 32 - max_errno) ptr
