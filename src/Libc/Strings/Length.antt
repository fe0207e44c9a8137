-- ===== src/Libc/Strings/Length.antt =====
-- Lengths and searches in strings, for src/kernel/libc/src/string.c.
use larva_os.Base.{
  ℕ, zero, suc, ◌+◌, ◌-◌, ◌%◌, ◌≤◌, ◌<◌, ◌≡◌, refl, ◌≢◌, ◌⊎◌, inl, inr, arith, min, ◌==◌, Option,
  some, Ram, null, Bool-cases, ==_iff, ==_false, ==_neq, ==_true, ap, ◌∙◌,
}
use larva_os.Libc.Strings.{strlen, strnlen, strnlen_loop, strchr}

-- At `s` stands a string of `n` bytes, none of them 0, and then a 0.
pub record IsString (m : Ram) (s n : ℕ) : Type 0 where
  pub inside : (j : ℕ) → j < n → m (s + j) ≢ 0
  pub end : m (s + n) ≡ 0

module _ (m : Ram) where
  pub IsString-next : (s n : ℕ) → IsString m s (suc n) → IsString m (s + 1) n
  IsString-next s n z = record {
    inside = λ j h e. z.inside (suc j) (omega arith) (ap m (omega arith) ∙ e);
    end = ap m (omega arith) ∙ z.end;
  }

  pub IsString-first : (s n : ℕ) → IsString m s (suc n) → m s ≢ 0
  IsString-first s n z e = z.inside 0 (omega arith) (ap m (omega arith) ∙ e)

  pub IsString-stop : (s : ℕ) → IsString m s 0 → m s ≡ 0
  IsString-stop s z = ap m (omega arith) ∙ z.end

  strlen_from : (fuel n s i : ℕ) → IsString m s n → n < fuel → strlen fuel m s i ≡ some (i + n)
  unfolding strlen
  strlen_from zero n s i z h = absurd (omega arith)
  strlen_from (suc fuel) zero s i z h =
      rw ((==_iff _ _).1 (IsString-stop s z)) (ap some (omega arith))
  strlen_from (suc fuel) (suc n) s i z h = rw (==_false _ _ (IsString-first s n z)) (
      strlen_from fuel n (s + 1) (i + 1) (IsString-next s n z) (omega arith)
      ∙ ap some (omega arith))

  -- On a string strlen ends, with one round more than its length, and returns its length.
  pub strlen_lem : (n s fuel : ℕ) → IsString m s n → n < fuel → strlen fuel m s 0 ≡ some n
  strlen_lem n s fuel z h = strlen_from fuel n s 0 z h ∙ ap some (omega arith)

  strnlen_from : (count n s i : ℕ) → IsString m s n → strnlen_loop m s count i ≡ i + min n count
  unfolding strnlen_loop
  strnlen_from zero n s i z = omega arith
  strnlen_from (suc count) zero s i z = rw ((==_iff _ _).1 (IsString-stop s z)) (omega arith)
  strnlen_from (suc count) (suc n) s i z =
      rw (==_false _ _ (IsString-first s n z))
        (strnlen_from count n (s + 1) (i + 1) (IsString-next s n z) ∙ omega arith)

  -- strnlen returns the length, or the limit where the string is longer.
  pub strnlen_lem : (n s count : ℕ) → IsString m s n → strnlen m s count ≡ min n count
  unfolding strnlen
  strnlen_lem n s count z = strnlen_from count n s 0 z ∙ omega arith

  -- The byte `c` stands in the string at index `k` first, or not at all.
  abbrev pub FirstAt : ℕ → ℕ → ℕ → Type 0
  FirstAt s c k = (m (s + k) ≡ c) × ((j : ℕ) → j < k → m (s + j) ≢ c)

  abbrev pub Absent : ℕ → ℕ → ℕ → Type 0
  Absent s c n = (j : ℕ) → j ≤ n → m (s + j) ≢ c

  -- What strchr promises of a string of `n` bytes, for its result `r`.
  abbrev pub Finds : ℕ → ℕ → ℕ → Option ℕ → Type 0
  Finds s c n r =
      ((k : ℕ) × (k ≤ n) × FirstAt s c k × (r ≡ some (s + k))) ⊎ (Absent s c n × (r ≡ some null))

  found_here : (s c n : ℕ) → m s ≡ c → Finds s c n (some s)
  found_here s c n e =
      inl (
        0,
        omega arith,
        (ap m (omega arith) ∙ e, λ j p. absurd (omega arith)),
        ap some (omega arith),
      )

  not_in_empty : (s c : ℕ) → m s ≢ c → Finds s c 0 (some null)
  not_in_empty s c ne = inr (λ j p e. ne (ap m (omega arith) ∙ e), refl)

  not_first : (s c j : ℕ) → m s ≢ c → (j ≢ 0 → m (s + 1 + (j - 1)) ≢ c) → m (s + j) ≢ c
  not_first s c zero ne later e = ne (ap m (omega arith) ∙ e)
  not_first s c (suc j) ne later e = later (omega arith) (ap m (omega arith) ∙ e)

  found_later : (s c n : ℕ) (r : Option ℕ) → m s ≢ c → Finds (s + 1) c n r → Finds s c (suc n) r
  found_later s c n r ne (inl (k, hk, (at, before), e)) = inl (
    suc k,
    omega arith,
    (ap m (omega arith) ∙ at, λ j p. not_first s c j ne (λ q. before (j - 1) (omega arith))),
    e ∙ ap some (omega arith),
  )
  found_later s c n r ne (inr (absent, e)) =
      inr (λ j p. not_first s c j ne (λ q. absent (j - 1) (omega arith)), e)

  -- strchr ends on every string. It returns the address of the first byte that is `c`, the 0 at
  -- the end included, and NULL exactly if there is none.
  pub strchr_lem :
      (fuel n s c : ℕ) → IsString m s n → n < fuel → Finds s (c % 256) n (strchr fuel m s c)
  unfolding strchr
  strchr_lem zero n s c z h = absurd (omega arith)
  strchr_lem (suc fuel) zero s c z h = elim (Bool-cases (m s == c % 256)) [
    | inl e ↦ rw e (found_here s (c % 256) 0 ((==_iff _ _).0 e))
    | inr e ↦ rw e (rw (==_true _ _ (IsString-stop s z)) (not_in_empty s (c % 256) (==_neq _ _ e)))
  ]
  strchr_lem (suc fuel) (suc n) s c z h = elim (Bool-cases (m s == c % 256)) [
    | inl e ↦ rw e (found_here s (c % 256) (suc n) ((==_iff _ _).0 e))
    | inr e ↦ rw e (
        rw (==_false _ _ (IsString-first s n z)) (
          found_later s (c % 256) n _ (==_neq _ _ e)
            (strchr_lem fuel n (s + 1) c (IsString-next s n z) (omega arith))))
  ]
