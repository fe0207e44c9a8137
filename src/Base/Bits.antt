-- ===== src/Base/Bits.antt =====
-- `&` and `|` as arithmetic: they act on the high and on the low part of a number by themselves.
use Prim.Native.Nat.{
  ℕ, zero, suc, ◌+◌, ◌-◌, ◌*◌, ◌/◌, ◌%◌, ◌^◌, ◌≤◌, ◌<◌, min, max, bit_and, bit_or, bit_and-bitwise,
  bit_or-bitwise, digits,
}
use mathlib.Core.Path.{◌≡◌, refl, ap, sym}
use mathlib.Core.Bool.{Bool, true, false}
use native.Mathlib.Nat.{
  pow-suc, one-le-pow, mul_comm, div-div-eq-div-mul, mul-add-mod_self_left, mod-eq_of_lt, mod-lt,
  div-add-mod, mul-div_cancel, mul-mod_left, div-eq_of_lt,
}
use native.Mathlib.Omega.{arith}
use larva_os.Base.Tests.{if◌then◌else◌}

module _ (z : ℕ → ℕ) (f : ℕ → ℕ → ℕ) where
  digits_none : (n b : ℕ) → digits z f n 0 b ≡ z b
  digits_none zero b = refl
  digits_none (suc n) b = refl

  -- Fuel beyond the first number makes no difference.
  digits_enough : (n m a b : ℕ) → a ≤ n → a ≤ m → digits z f n a b ≡ digits z f m a b
  digits_enough n m zero b h k = rw (digits_none n b, digits_none m b)
  digits_enough (suc n) (suc m) (suc a) b h k =
      ap (λ (t : ℕ). t * 2 + f (suc a % 2) (b % 2))
        (digits_enough n m (suc a / 2) (b / 2) (omega arith) (omega arith))
  digits_enough zero m (suc a) b h k = absurd (omega arith)
  digits_enough (suc n) zero (suc a) b h k = absurd (omega arith)

  digits_step :
      (a b : ℕ)
      → digits z f (suc a) (suc a) b
        ≡ digits z f (suc a / 2) (suc a / 2) (b / 2) * 2 + f (suc a % 2) (b % 2)
  digits_step a b =
      ap (λ (t : ℕ). t * 2 + f (suc a % 2) (b % 2))
        (digits_enough a (suc a / 2) (suc a / 2) (b / 2) (omega arith) (omega arith))

and_step : (a b : ℕ) → bit_and a b ≡ bit_and (a / 2) (b / 2) * 2 + min (a % 2) (b % 2)
and_step zero b = omega (arith, bit_and-bitwise 0 b, bit_and-bitwise 0 (b / 2))
and_step (suc a) b = omega (
  arith,
  bit_and-bitwise (suc a) b,
  bit_and-bitwise (suc a / 2) (b / 2),
  digits_step (λ _. 0) min a b,
)

or_step : (a b : ℕ) → bit_or a b ≡ bit_or (a / 2) (b / 2) * 2 + max (a % 2) (b % 2)
or_step zero b = omega (arith, bit_or-bitwise 0 b, bit_or-bitwise 0 (b / 2))
or_step (suc a) b = omega (
  arith,
  bit_or-bitwise (suc a) b,
  bit_or-bitwise (suc a / 2) (b / 2),
  digits_step (λ y. y) max a b,
)

pub and-zero : (a : ℕ) → bit_and a 0 ≡ 0
and-zero a = below a a (omega arith)
  where
    below : (k n : ℕ) → n ≤ k → bit_and n 0 ≡ 0
    below k zero h = omega (arith, bit_and-bitwise 0 0)
    below zero (suc n) h = absurd (omega arith)
    below (suc k) (suc n) h = omega (arith, and_step (suc n) 0, below k (suc n / 2) (omega arith))

pub zero-and : (b : ℕ) → bit_and 0 b ≡ 0
zero-and b = omega (arith, bit_and-bitwise 0 b)

pub or-zero : (a : ℕ) → bit_or a 0 ≡ a
or-zero a = below a a (omega arith)
  where
    below : (k n : ℕ) → n ≤ k → bit_or n 0 ≡ n
    below k zero h = omega (arith, bit_or-bitwise 0 0)
    below zero (suc n) h = absurd (omega arith)
    below (suc k) (suc n) h = omega (arith, or_step (suc n) 0, below k (suc n / 2) (omega arith))

pub zero-or : (b : ℕ) → bit_or 0 b ≡ b
zero-or b = omega (arith, bit_or-bitwise 0 b)

module _ (a p : ℕ) (pos : 0 < p) where
  div-double : a / (p * 2) ≡ a / 2 / p
  div-double = rw (mul_comm p 2) (sym (div-div-eq-div-mul a 2 p))

  mod-double : a % (p * 2) ≡ a / 2 % p * 2 + a % 2
  mod-double = omega (
    arith,
    ap (λ (t : ℕ). t % (p * 2)) regroup,
    mul-add-mod_self_left (p * 2) (a / 2 / p) (a / 2 % p * 2 + a % 2),
    mod-eq_of_lt {n = a / 2 % p * 2 + a % 2} {m = p * 2} (omega (arith, mod-lt (a / 2) pos)),
  )
    where
      regroup : a ≡ p * 2 * (a / 2 / p) + (a / 2 % p * 2 + a % 2)
      regroup = omega (arith, div-add-mod (a / 2) p)

pow-double : (k : ℕ) → 2 ^ suc k ≡ 2 ^ k * 2
pow-double k = pow-suc 2 k

pow-pos : (k : ℕ) → 0 < 2 ^ k
pow-pos k = one-le-pow k 2 (omega arith)

module _ (p : ℕ) (pos : 0 < p) (a b : ℕ) where
  low_and :
      bit_and (a / 2) (b / 2)
        ≡ bit_and (a / 2 / p) (b / 2 / p) * p + bit_and (a / 2 % p) (b / 2 % p)
      → bit_and a b
        ≡ bit_and (a / 2 / p) (b / 2 / p) * (p * 2) + bit_and (a % (p * 2)) (b % (p * 2))
  low_and ih = ground (
    arith,
    and_step a b,
    and_step (a % (p * 2)) (b % (p * 2)),
    mod-double a p pos,
    mod-double b p pos,
  )

  low_or :
      bit_or (a / 2) (b / 2) ≡ bit_or (a / 2 / p) (b / 2 / p) * p + bit_or (a / 2 % p) (b / 2 % p)
      → bit_or a b ≡ bit_or (a / 2 / p) (b / 2 / p) * (p * 2) + bit_or (a % (p * 2)) (b % (p * 2))
  low_or ih = ground (
    arith,
    or_step a b,
    or_step (a % (p * 2)) (b % (p * 2)),
    mod-double a p pos,
    mod-double b p pos,
  )

-- The operation on the parts above and below bit `k`.
pub and_split :
    (k a b : ℕ)
    → bit_and a b ≡ bit_and (a / 2 ^ k) (b / 2 ^ k) * 2 ^ k + bit_and (a % 2 ^ k) (b % 2 ^ k)
and_split zero a b = ground (arith, and-zero 0)
and_split (suc k) a b =
    rw (pow-double k, div-double a (2 ^ k) (pow-pos k), div-double b (2 ^ k) (pow-pos k))
      (low_and (2 ^ k) (pow-pos k) a b (and_split k (a / 2) (b / 2)))

pub or_split :
    (k a b : ℕ)
    → bit_or a b ≡ bit_or (a / 2 ^ k) (b / 2 ^ k) * 2 ^ k + bit_or (a % 2 ^ k) (b % 2 ^ k)
or_split zero a b = ground (arith, or-zero 0)
or_split (suc k) a b =
    rw (pow-double k, div-double a (2 ^ k) (pow-pos k), div-double b (2 ^ k) (pow-pos k))
      (low_or (2 ^ k) (pow-pos k) a b (or_split k (a / 2) (b / 2)))

-- `& (2 ^ k - 1)` is the remainder by `2 ^ k`.
pub and_mask : (k a : ℕ) → bit_and a (2 ^ k - 1) ≡ a % 2 ^ k
and_mask zero a = omega (arith, and-zero a)
and_mask (suc k) a = rw (pow-double k) (
    ground (
      arith,
      pow-pos k,
      and_step a (2 ^ k * 2 - 1),
      and_mask k (a / 2),
      mod-double a (2 ^ k) (pow-pos k),
    ))

-- `(q << k) | r` is the sum when `r` has at most `k` bits.
pub or_fields : (k q r : ℕ) → r < 2 ^ k → bit_or (q * 2 ^ k) r ≡ q * 2 ^ k + r
or_fields k q r h = ground (
  arith,
  or_split k (q * 2 ^ k) r,
  mul-div_cancel q (pow-pos k),
  mul-mod_left q (2 ^ k),
  div-eq_of_lt h,
  mod-eq_of_lt h,
  or-zero q,
  zero-or r,
)

-- A page-aligned number in `table | flags` and in `entry & 0xfffff000`.
pub or_page : (x flags : ℕ) → x % 4096 ≡ 0 → flags < 4096 → bit_or x flags ≡ x + flags
or_page x flags aligned small =
    let whole : x ≡ x / 4096 * 2 ^ 12 = omega arith in
    ground (arith, or_fields 12 (x / 4096) flags small)

pub and_page : (x : ℕ) → x < 2 ^ 32 → bit_and x 0xfffff000 ≡ x / 4096 * 4096
and_page x h =
    ground (arith, and_split 12 x 0xfffff000, and_mask 20 (x / 4096), and-zero (x % 4096))

-- The test `p` passes at each number less than the bound.
unfoldable pub passes : (ℕ → Bool) → ℕ → Bool
passes p zero = true
passes p (suc k) = if p k then passes p k else false

pub passes_at : (p : ℕ → Bool) (k x : ℕ) → x < k → passes p k ≡ true → p x ≡ true
unfolding passes
passes_at p (suc k) x lt all = ground (arith, λ (below : x < k). passes_at p k x below)
passes_at p zero x lt all = absurd (omega arith)
