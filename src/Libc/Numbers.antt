-- ===== src/Libc/Numbers.antt =====
-- itoa and atoi of src/kernel/libc/src/stdlib.c over the kernel's memory.
pub mod Decimal
pub mod Digits
mod Tests
use larva_os.Base.{
  ℕ, zero, suc, ◌+◌, ◌-◌, ◌*◌, ◌/◌, ◌%◌, ◌^◌, Bool, ◌||◌, if◌then◌else◌, ◌==◌, ltb, slt, u8, u32,
  sub32, sdiv, Ram, write, Option, none, some, ◌>>=◌,
}
use larva_os.Libc.Strings.{char_to_int}

-- The character of a digit. A negative remainder gives one below '0'.
abbrev pub digit : ℕ → ℕ
digit tmp = u8 (if slt tmp 10 then tmp + b'0' else tmp + b'a' - 10)

-- The do-while loop of itoa: the memory and `i` at its end. 0 < base.
unfoldable pub write_digits : ℕ → Ram → ℕ → ℕ → ℕ → ℕ → Option (Ram × ℕ)
write_digits zero m str value base i = none
write_digits (suc fuel) m str value base i =
    let tmp = sub32 value (u32 (sdiv value base * base)) in
    let m' = write m (str + i) (digit tmp) in
    let rest = write_digits fuel m' str (sdiv value base) base (i + 1) in
    if sdiv value base == 0 then some (m', i + 1) else rest

-- `for (...; j < i; j++, i--)` with `left` rounds to go: the characters `j` and `i` change places.
unfoldable pub reverse_from : ℕ → Ram → ℕ → ℕ → ℕ → Ram
reverse_from zero m str j i = m
reverse_from (suc left) m str j i =
    reverse_from left (write (write m (str + j) (m (str + i))) (str + i) (m (str + j))) str (j + 1)
      (i - 1)

-- The memory; the result is `str`. The first loop runs on fuel, and of `n` characters the second
-- swaps `n / 2` pairs.
unfoldable pub itoa : ℕ → Ram → ℕ → ℕ → ℕ → Option Ram
unfolding write_digits reverse_from
itoa fuel m value str base = write_digits fuel m str value base 0 >>= λ (out : Ram × ℕ).
    some (reverse_from (out.1 / 2) (write out.0 (str + out.1) 0) str 0 (out.1 - 1))

-- `(*s == ' ') || ((unsigned int)(*s - 9) < 5u)`.
abbrev pub is_space : ℕ → Bool
is_space c = (c == b' ') || ltb (sub32 (char_to_int c) 9) 5

abbrev pub is_digit : ℕ → Bool
is_digit c = ltb (sub32 (char_to_int c) b'0') 10

unfoldable pub skip_spaces : ℕ → Ram → ℕ → Option ℕ
skip_spaces zero m s = none
skip_spaces (suc fuel) m s =
    let rest = skip_spaces fuel m (s + 1) in if is_space (m s) then rest else some s

unfoldable pub read_digits : ℕ → Ram → ℕ → ℕ → Option ℕ
read_digits zero m s v = none
read_digits (suc fuel) m s v =
    let rest = read_digits fuel m (s + 1) (sub32 (u32 (v * 10 + char_to_int (m s))) b'0') in
    if is_digit (m s) then rest else some v

unfoldable pub atoi : ℕ → Ram → ℕ → Option ℕ
unfolding skip_spaces read_digits
atoi fuel m s = skip_spaces fuel m s >>= λ (s' : ℕ).
    let signed = (m s' == b'-') || (m s' == b'+') in
    read_digits fuel m (if signed then s' + 1 else s') 0 >>= λ (v : ℕ).
    some (if m s' == b'-' then sub32 0 v else v)
