-- ===== src/Libc/Strings/Copies.antt =====
-- strcpy of src/kernel/libc/src/string.c.
use larva_os.Base.{
  ℕ, zero, suc, ◌+◌, ◌≤◌, ◌<◌, ◌≡◌, refl, ◌≢◌, ◌⊎◌, arith, some, Ram, write, ap, ◌∙◌, sym, ==_iff,
  ==_false,
}
use larva_os.Libc.Strings.{strcpy}
use larva_os.Libc.Strings.Length.{IsString, IsString-first, IsString-next, IsString-stop}

-- `m'` has at `d` what `m` has in the `n + 1` bytes at `s`, and is as `m` elsewhere.
abbrev pub Holds : Ram → Ram → ℕ → ℕ → ℕ → Type 0
Holds m m' d s n =
    ((j : ℕ) → j ≤ n → m' (d + j) ≡ m (s + j)) × ((q : ℕ) → (q < d) ⊎ (d + n < q) → m' q ≡ m q)

abbrev pub Clear : ℕ → ℕ → ℕ → Type 0
Clear d s n = (d + n < s) ⊎ (s + n < d)

byte : (m : Ram) (p q : ℕ) → p ≡ q → m p ≡ m q
byte m p q e = ap m e

written : (m : Ram) (p v q : ℕ) → q ≢ p → write m p v q ≡ m q
written m p v q ne = rw (==_false _ _ ne) refl

written_self : (m : Ram) (p v : ℕ) → write m p v p ≡ v
written_self m p v = rw ((==_iff p p).1 refl) refl

IsString-write :
    (m : Ram) (d v s n : ℕ) → (d < s) ⊎ (s + n < d) → IsString m s n → IsString (write m d v) s n
IsString-write m d v s n off z = record {
  inside = λ j h e. z.inside j h (sym (written m d v (s + j) (omega (arith, off, h))) ∙ e);
  end = written m d v (s + n) (omega (arith, off)) ∙ z.end;
}

copied_first :
    (m m' : Ram) (d s n : ℕ)
    → Clear d s (suc n)
    → Holds (write m d (m s)) m' (d + 1) (s + 1) n
    → Holds m m' d s (suc n)
copied_first m m' d s n clear (holds, frame) =
    (at, λ q o. frame q (omega (arith, o)) ∙ written m d (m s) q (omega (arith, o)))
  where
    at : (j : ℕ) → j ≤ suc n → m' (d + j) ≡ m (s + j)
    at zero h =
        byte m' (d + 0) d (omega arith)
        ∙ frame d (omega arith)
        ∙ written_self m d (m s)
        ∙ byte m s (s + 0) (omega arith)
    at (suc j) h =
        byte m' (d + suc j) (d + 1 + j) (omega arith)
        ∙ holds j (omega (arith, h))
        ∙ written m d (m s) (s + 1 + j) (omega (arith, clear, h))
        ∙ byte m (s + 1 + j) (s + suc j) (omega arith)

-- strcpy of a string of `n` bytes to an area that has none of them ends. It copies the string with
-- its 0 and changes no other byte.
pub strcpy_lem :
    (fuel n : ℕ) (m : Ram) (d s : ℕ)
    → IsString m s n
    → Clear d s n
    → n < fuel
    → (m' : Ram) × (strcpy fuel m d s ≡ some m') × Holds m m' d s n
unfolding strcpy
strcpy_lem zero n m d s z clear h = absurd (omega (arith, h))
strcpy_lem (suc fuel) zero m d s z clear h = rw ((==_iff _ _).1 (IsString-stop m s z)) (
  write m d (m s),
  refl,
  (
    λ j low.
        byte (write m d (m s)) (d + j) d (omega (arith, low))
        ∙ written_self m d (m s)
        ∙ byte m s (s + j) (omega (arith, low)),
    λ q o. written m d (m s) q (omega (arith, o)),
  ),
)
strcpy_lem (suc fuel) (suc n) m d s z clear h =
    let (m', e, holds) =
      strcpy_lem fuel n (write m d (m s)) (d + 1) (s + 1)
        (IsString-write m d (m s) (s + 1) n (omega (arith, clear)) (IsString-next m s n z))
        (omega (arith, clear)) (omega (arith, h)) in
    rw (==_false _ _ (IsString-first m s n z)) (m', e, copied_first m m' d s n clear holds)
