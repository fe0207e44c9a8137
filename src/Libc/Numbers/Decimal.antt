-- ===== src/Libc/Numbers/Decimal.antt =====
-- The decimal notation that itoa writes and atoi reads, for src/kernel/libc/src/stdlib.c.
use larva_os.Base.{
  ℕ, zero, suc, ◌+◌, ◌-◌, ◌*◌, ◌/◌, ◌%◌, ◌^◌, ◌≤◌, ◌<◌, ◌≡◌, refl, ◌∙◌, ap, subst, arith, true,
  false, ◌⊎◌, inl, inr, ◌==◌, sdiv, sub32, u32, write, Ram, Option, some,
}
use native.Mathlib.Omega.{pow_step}
use larva_os.Disk.Stream.Round.{Off, byte_at, ltb-cases}
use larva_os.Libc.Strings.{char_to_int}
use larva_os.Libc.Numbers.{
  atoi, digit, is_digit, is_space, itoa, read_digits, reverse_from, skip_spaces, write_digits,
}
use larva_os.Libc.Numbers.Digits.{
  Digits, Digits-cons, Digits-first, Digits-rest, highest_first, highest_first_grows, lowest_first,
  mirror, reverse_from_lem,
}

-- What the first loop of itoa leaves: the digits of the value, the lowest first.
Written : ℕ → Ram → ℕ → ℕ → ℕ → Option (Ram × ℕ) → Type 0
Written most m str i value r =
    (m' : Ram) × (n : ℕ) × (r ≡ some (m', i + n))
    × (0 < n)
    × (n ≤ most)
    × Digits m' (str + i) n
    × (lowest_first m' (str + i) n ≡ value)
    × ((q : ℕ) → Off (str + i) n q → m' q ≡ m q)

sdiv-ten : (value : ℕ) → value < 2 ^ 31 → sdiv value 10 ≡ value / 10
sdiv-ten value h = ground arith

digit-ten :
    (value : ℕ) → value < 2 ^ 31 → digit (sub32 value (u32 (value / 10 * 10))) ≡ b'0' + value % 10
digit-ten value h = ground arith

last_digit :
    (fuel : ℕ) (m : Ram) (str value i : ℕ)
    → value < 10
    → Written (suc fuel) m str i value (write_digits (suc fuel) m str value 10 i)
unfolding Written write_digits lowest_first Digits
last_digit fuel m str value i h =
    let w = write m (str + i) (b'0' + value % 10) in
    let here : w (str + i) ≡ b'0' + value % 10 = ground arith in
    let none_left : value / 10 ≡ 0 = omega arith in
    rw (sdiv-ten value (omega arith), digit-ten value (omega arith), none_left)
      (
        w,
        1,
        refl,
        omega arith,
        omega arith,
        Digits-cons w (str + i) 0 (omega (arith, here), omega (arith, here))
            (λ j k. absurd (omega arith)),
        omega (arith, here),
        λ q o. ground (arith, o),
      )

next_digit :
    (fuel : ℕ) (m : Ram) (str value i : ℕ)
    → value < 2 ^ 31
    → 10 ≤ value
    → Written fuel
        (write m (str + i) (b'0' + value % 10))
        str
        (i + 1)
        (value / 10)
        (write_digits fuel (write m (str + i) (b'0' + value % 10)) str (value / 10) 10 (i + 1))
    → Written (suc fuel) m str i value (write_digits (suc fuel) m str value 10 i)
unfolding Written write_digits lowest_first
next_digit fuel m str value i h more (m', n, e, some_digits, few, digits, val, frame) =
    let first : m' (str + i) ≡ b'0' + value % 10 = frame (str + i) (omega arith) ∙ ground arith in
    let val' : lowest_first m' (str + i + 1) n ≡ value / 10 =
      ap (λ x. lowest_first m' x n) (omega arith) ∙ val in
    let some_left : ((value / 10) == 0) ≡ false = ground arith in
    rw (sdiv-ten value (omega arith), digit-ten value (omega arith), some_left)
      (
        m',
        suc n,
        e ∙ ap (λ x. some (m', x)) (omega arith),
        omega arith,
        omega (arith, few),
        Digits-cons m' (str + i) n (omega (arith, first), omega (arith, first))
            (subst (λ x. Digits m' x n) (omega arith) digits),
        omega (arith, first, val'),
        λ q o. frame q (omega (arith, o)) ∙ ground (arith, o),
      )

write_digits_lem :
    (fuel : ℕ) (m : Ram) (str value i : ℕ)
    → value < 2 ^ 31
    → value < 10 ^ suc fuel
    → Written (suc fuel) m str i value (write_digits (suc fuel) m str value 10 i)
write_digits_lem zero m str value i h f = last_digit zero m str value i (omega arith)
write_digits_lem (suc fuel) m str value i h f = elim (ltb-cases value 10) [
  | inl small ↦ last_digit (suc fuel) m str value i small
  | inr large ↦ next_digit (suc fuel) m str value i h large (
      write_digits_lem fuel (write m (str + i) (b'0' + value % 10)) str (value / 10) (i + 1)
        (omega arith) (omega (arith, pow_step 10 (suc fuel))))
]

is_digit-true : (c : ℕ) → b'0' ≤ c → c ≤ b'9' → is_digit c ≡ true
is_digit-true c a b = ground arith

next_value :
    (v c w : ℕ)
    → b'0' ≤ c
    → c ≤ b'9'
    → v * 10 + (c - b'0') ≤ w
    → w < 2 ^ 31
    → sub32 (u32 (v * 10 + char_to_int c)) b'0' ≡ v * 10 + (c - b'0')
next_value v c w a b k h = ground arith

read_digits_lem :
    (fuel n : ℕ) (m : Ram) (p v : ℕ)
    → n < fuel
    → Digits m p n
    → m (p + n) ≡ 0
    → highest_first v m p n < 2 ^ 31
    → read_digits fuel m p v ≡ some (highest_first v m p n)
unfolding read_digits highest_first
read_digits_lem zero n m p v f d e h = absurd (omega arith)
read_digits_lem (suc fuel) zero m p v f d e h =
    let end : m p ≡ 0 = byte_at m p (p + 0) (omega arith) ∙ e in rw end refl
read_digits_lem (suc fuel) (suc n) m p v f d e h =
    let (low, high) = Digits-first m p n d in
    let grows = highest_first_grows n (v * 10 + (m p - b'0')) m (p + 1) in
    rw (is_digit-true (m p) low high, next_value v (m p) _ low high grows h)
      (read_digits_lem fuel n m (p + 1) (v * 10 + (m p - b'0')) (omega arith) (Digits-rest m p n d)
        (byte_at m (p + 1 + n) (p + suc n) (omega arith) ∙ e) h)

-- atoi reads a number without a sign.
atoi_lem :
    (fuel n : ℕ) (m : Ram) (p : ℕ)
    → suc n < fuel
    → Digits m p (suc n)
    → m (p + suc n) ≡ 0
    → highest_first 0 m p (suc n) < 2 ^ 31
    → atoi fuel m p ≡ some (highest_first 0 m p (suc n))
unfolding atoi skip_spaces
atoi_lem zero n m p f d e h = absurd (omega arith)
atoi_lem (suc fuel) n m p f d e h =
    let (low, high) = Digits-first m p n d in
    let solid : is_space (m p) ≡ false = ground arith in
    let not_minus : (m p == b'-') ≡ false = ground arith in
    let not_plus : (m p == b'+') ≡ false = ground arith in
    rw (solid, not_minus, not_plus, read_digits_lem (suc fuel) (suc n) m p 0 f d e h) refl

-- The text that itoa makes of `n` digits.
abbrev text : ℕ → Ram → ℕ → Ram
text n m str = reverse_from (n / 2) (write m (str + n) 0) str 0 (n - 1)

end_frame : (m : Ram) (p q : ℕ) → (q < p) ⊎ (p < q) → write m p 0 q ≡ m q
end_frame m p q h = ground (arith, h)

text_digit :
    (n j : ℕ) (m : Ram) (str : ℕ) → j < n → text n m str (str + j) ≡ m (str + 0 + (n - 1 - j))
text_digit n j m str h =
    reverse_from_lem (n / 2) (write m (str + n) 0) str 0 (n - 1) (str + j) (omega arith)
    ∙ ground (
      arith,
      byte_at m (str + 0 + (str + (n - 1)) - (str + j)) (str + 0 + (n - 1 - j)) (omega arith),
    )

text_frame :
    (n q : ℕ) (m : Ram) (str : ℕ)
    → 0 < n
    → (q < str) ⊎ (str + n ≤ q)
    → text n m str q ≡ write m (str + n) 0 q
text_frame n q m str some_digits h =
    reverse_from_lem (n / 2) (write m (str + n) 0) str 0 (n - 1) q (omega arith) ∙ ground (arith, h)

text-Digits : (n : ℕ) (m : Ram) (str : ℕ) → Digits m (str + 0) n → Digits (text n m str) str n
unfolding Digits
text-Digits n m str d j h =
    let e = text_digit n j m str h in
    let (low, high) = d (n - 1 - j) (omega arith) in (omega (arith, e, low), omega (arith, e, high))

atoi-text :
    (n : ℕ) (m : Ram) (str value : ℕ)
    → 0 < n
    → n ≤ 10
    → Digits m (str + 0) n
    → lowest_first m (str + 0) n ≡ value
    → value < 2 ^ 31
    → atoi 11 (text n m str) str ≡ some value
atoi-text zero m str value z f d e h = absurd (omega arith)
atoi-text (suc n) m str value z f d e h =
    let r = text (suc n) m str in
    let whole : highest_first 0 r str (suc n) ≡ value =
      mirror (suc n) m r str (str + 0) (λ j k. text_digit (suc n) j m str k) ∙ e in
    let end : r (str + suc n) ≡ 0 =
      text_frame (suc n) (str + suc n) m str z (omega arith) ∙ ground arith in
    atoi_lem 11 n r str (omega arith) (text-Digits (suc n) m str d) end (omega (arith, whole))
    ∙ ap some whole

-- itoa with base 10 ends on every number that is not negative, after at most 10 digits, changes no
-- byte but the 11 from `str` on, and atoi, which ends with 11 rounds, reads the number back.
pub atoi-itoa :
    (m : Ram) (str value : ℕ)
    → value < 2 ^ 31
    → (r : Ram) × (itoa 10 m value str 10 ≡ some r)
      × (atoi 11 r str ≡ some value)
      × ((q : ℕ) → Off str 11 q → r q ≡ m q)
unfolding itoa Written
atoi-itoa m str value h =
    let (m', n, e, some_digits, few, digits, val, frame) =
      write_digits_lem 9 m str value 0 h (omega arith) in
    let e' : write_digits 10 m str value 10 0 ≡ some (m', n) =
      e ∙ ap (λ x. some (m', x)) (omega arith) in
    (
      text n m' str,
      rw e' refl,
      atoi-text n m' str value some_digits few digits val h,
      λ q o.
          text_frame n q m' str some_digits (omega (arith, o))
          ∙ end_frame m' (str + n) q (omega (arith, o))
          ∙ frame q (omega (arith, o)),
    )
