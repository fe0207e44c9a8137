-- ===== src/Libc/Numbers/Digits.antt =====
-- Digits in the memory, and how their value reads from either end, for
-- src/kernel/libc/src/stdlib.c.
use larva_os.Base.{
  ℕ, zero, suc, ◌+◌, ◌-◌, ◌*◌, ◌≤◌, ◌<◌, ◌≡◌, refl, ◌∙◌, ap, ap₂, arith, if◌then◌else◌, ◌⊎◌, leb,
  ◌&&◌, write, Ram,
}
use larva_os.Disk.Stream.Round.{byte_at}
use larva_os.Libc.Numbers.{reverse_from}

-- The value of `n` digits from `p` on, the lowest first.
unfoldable pub lowest_first : Ram → ℕ → ℕ → ℕ
lowest_first m p zero = 0
lowest_first m p (suc n) = m p - b'0' + 10 * lowest_first m (p + 1) n

-- The value of the number `v` with `n` digits from `p` on behind it, the highest first.
unfoldable pub highest_first : ℕ → Ram → ℕ → ℕ → ℕ
highest_first v m p zero = v
highest_first v m p (suc n) = highest_first (v * 10 + (m p - b'0')) m (p + 1) n

-- `n` digits stand from `p` on.
unfoldable pub Digits : Ram → ℕ → ℕ → Type 0
Digits m p n = (j : ℕ) → j < n → (b'0' ≤ m (p + j)) × (m (p + j) ≤ b'9')

pub Digits-cons :
    (m : Ram) (p n : ℕ) → (b'0' ≤ m p) × (m p ≤ b'9') → Digits m (p + 1) n → Digits m p (suc n)
unfolding Digits
Digits-cons m p n h rest zero k = (
  omega (arith, h.0, byte_at m (p + 0) p (omega arith)),
  omega (arith, h.1, byte_at m (p + 0) p (omega arith)),
)
Digits-cons m p n h rest (suc j) k = (
  omega (arith, (rest j (omega arith)).0, byte_at m (p + suc j) (p + 1 + j) (omega arith)),
  omega (arith, (rest j (omega arith)).1, byte_at m (p + suc j) (p + 1 + j) (omega arith)),
)

pub Digits-first : (m : Ram) (p n : ℕ) → Digits m p (suc n) → (b'0' ≤ m p) × (m p ≤ b'9')
unfolding Digits
Digits-first m p n d = (
  omega (arith, (d 0 (omega arith)).0, byte_at m (p + 0) p (omega arith)),
  omega (arith, (d 0 (omega arith)).1, byte_at m (p + 0) p (omega arith)),
)

pub Digits-rest : (m : Ram) (p n : ℕ) → Digits m p (suc n) → Digits m (p + 1) n
unfolding Digits
Digits-rest m p n d j k = (
  omega (arith, (d (suc j) (omega arith)).0, byte_at m (p + suc j) (p + 1 + j) (omega arith)),
  omega (arith, (d (suc j) (omega arith)).1, byte_at m (p + suc j) (p + 1 + j) (omega arith)),
)

pub highest_first_last :
    (n v : ℕ) (m : Ram) (p : ℕ)
    → highest_first v m p (suc n) ≡ highest_first v m p n * 10 + (m (p + n) - b'0')
unfolding highest_first
highest_first_last zero v m p = ap (λ x. v * 10 + (m x - b'0')) (omega arith)
highest_first_last (suc n) v m p =
    highest_first_last n (v * 10 + (m p - b'0')) m (p + 1)
    ∙ ap (λ x. highest_first (v * 10 + (m p - b'0')) m (p + 1) n * 10 + (m x - b'0')) (omega arith)

-- A number reads the same both ways.
pub mirror :
    (n : ℕ) (m r : Ram) (p q : ℕ)
    → ((j : ℕ) → j < n → r (p + j) ≡ m (q + (n - 1 - j)))
    → highest_first 0 r p n ≡ lowest_first m q n
unfolding lowest_first highest_first
mirror zero m r p q h = refl
mirror (suc n) m r p q h =
    let last : r (p + n) ≡ m q = h n (omega arith) ∙ ap m {y = q} (omega arith) in
    highest_first_last n 0 r p
    ∙ ap₂ (λ (x y : ℕ). x * 10 + (y - b'0'))
        (mirror n m r p (q + 1) (λ j k. h j (omega arith) ∙ ap m (omega arith))) last
    ∙ omega arith

pub highest_first_grows : (n v : ℕ) (m : Ram) (p : ℕ) → v ≤ highest_first v m p n
unfolding highest_first
highest_first_grows zero v m p = omega arith
highest_first_grows (suc n) v m p =
    omega (arith, highest_first_grows n (v * 10 + (m p - b'0')) m (p + 1))

-- The characters `j` to `i` are turned round, and no other byte is changed.
pub reverse_from_lem :
    (left : ℕ) (m : Ram) (str j i q : ℕ)
    → (i + 1 ≡ j + 2 * left) ⊎ (i ≡ j + 2 * left)
    → reverse_from left m str j i q
      ≡ (if leb (str + j) q && leb q (str + i) then m (str + j + (str + i) - q) else m q)
unfolding reverse_from
reverse_from_lem zero m str j i q e = ground (
  arith,
  e,
  λ (h : str + j ≤ q) (k : q ≤ str + i). byte_at m (str + j + (str + i) - q) q (omega (arith, e)),
)
reverse_from_lem (suc left) m str j i q e =
    let m' = write (write m (str + j) (m (str + i))) (str + i) (m (str + j)) in
    reverse_from_lem left m' str (j + 1) (i - 1) q (omega (arith, e))
    ∙ ground (
      arith,
      e,
      λ (h : q ≡ str + j). byte_at m (str + j + (str + i) - q) (str + i) (omega (arith, h)),
      λ (h : q ≡ str + i). byte_at m (str + j + (str + i) - q) (str + j) (omega (arith, h)),
      λ (h : str + j < q) (k : q < str + i).
          byte_at m (str + (j + 1) + (str + (i - 1)) - q) (str + j + (str + i) - q) (omega arith),
    )
