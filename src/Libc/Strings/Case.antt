-- ===== src/Libc/Strings/Case.antt =====
-- The letter case functions of src/kernel/libc/src/ctype.c.
use larva_os.Base.{
  ℕ, ◌+◌, ◌-◌, ◌^◌, ◌<◌, ◌≡◌, refl, ◌∙◌, arith, leb, ◌==◌, ==_iff, ◌&&◌, ◌||◌, not, Bool, bit_and,
  bit_or, if◌then◌else◌, Bool-cases, true, inl, inr,
}
use larva_os.Base.Bits.{passes, passes_at}
use larva_os.Libc.Strings.{isupper, islower, tolower, toupper}

abbrev is_capital : ℕ → Bool
is_capital c = leb 65 c && leb c 90

abbrev is_small : ℕ → Bool
is_small c = leb 97 c && leb c 122

isupper-capital : (c : ℕ) → c < 2 ^ 32 → isupper c ≡ is_capital c
unfolding isupper
isupper-capital c h = ground arith

islower-small : (c : ℕ) → c < 2 ^ 32 → islower c ≡ is_small c
unfolding islower
islower-small c h = ground arith

small_test : ℕ → Bool
small_test c = not (is_capital c) || (bit_or c 0x20 == c + 32)

capital_test : ℕ → Bool
capital_test c = not (is_small c) || (bit_and c 0xffffffdf == c - 32)

small_all : passes small_test 128 ≡ true
unfolding passes small_test
small_all = refl

capital_all : passes capital_test 128 ≡ true
unfolding passes capital_test
capital_all = refl

or-capital : (c : ℕ) → is_capital c ≡ true → bit_or c 0x20 ≡ c + 32
unfolding small_test
or-capital c h =
    (==_iff _ _).0 (ground (arith, passes_at small_test 128 c (ground arith) small_all))

and-small : (c : ℕ) → is_small c ≡ true → bit_and c 0xffffffdf ≡ c - 32
unfolding capital_test
and-small c h =
    (==_iff _ _).0 (ground (arith, passes_at capital_test 128 c (ground arith) capital_all))

-- Of all values of an `int`, tolower adds 32 to the codes of `A` to `Z` and changes no other, and
-- toupper takes 32 from those of `a` to `z` and changes no other.
pub case_lem :
    (c : ℕ)
    → c < 2 ^ 32
    → (tolower c ≡ (if leb 65 c && leb c 90 then c + 32 else c))
      × (toupper c ≡ (if leb 97 c && leb c 122 then c - 32 else c))
unfolding tolower toupper
case_lem c h = (lower, upper)
  where
    lower : tolower c ≡ (if is_capital c then c + 32 else c)
    lower = elim (Bool-cases (is_capital c)) [
      | inl t ↦ rw (isupper-capital c h ∙ t) (or-capital c t ∙ ground arith)
      | inr t ↦ rw (isupper-capital c h ∙ t) (ground arith)
    ]

    upper : toupper c ≡ (if is_small c then c - 32 else c)
    upper = elim (Bool-cases (is_small c)) [
      | inl t ↦ rw (islower-small c h ∙ t) (and-small c t ∙ ground arith)
      | inr t ↦ rw (islower-small c h ∙ t) (ground arith)
    ]
