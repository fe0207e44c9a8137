-- ===== src/Libc/Strings/Compare.antt =====
-- Comparison of strings and of memory, for src/kernel/libc/src/string.c.
use larva_os.Base.{
  ℕ, zero, suc, ◌+◌, ◌%◌, ◌<◌, ◌≡◌, refl, ◌≢◌, ◌↔◌, inl, inr, arith, ◌==◌, if◌then◌else◌, Ram,
  Bool-cases, ==_iff, ==_neq, ap, ◌∙◌, sub32, not, ◌||◌,
}
use larva_os.Libc.Strings.{memcmp, strncmp, char_to_int}

abbrev pub IsBytes : Ram → Type 0
IsBytes m = (a : ℕ) → m a < 256

-- A difference of two bytes is 0 exactly if they are the same, in both functions.
byte_diff : (a b : ℕ) → a < 256 → b < 256 → (char_to_int (sub32 a b % 256) ≡ 0) ↔ (a ≡ b)
byte_diff a b ha hb = (λ e. ground arith, λ e. ground arith)

char_diff : (a b : ℕ) → a < 256 → b < 256 → (sub32 (char_to_int a) (char_to_int b) ≡ 0) ↔ (a ≡ b)
char_diff a b ha hb = (λ e. ground arith, λ e. ground arith)

module _ (m : Ram) (bytes : IsBytes m) where
  same_all :
      (c p1 p2 : ℕ)
      → m p1 ≡ m p2
      → ((j : ℕ) → j < c → m (p1 + 1 + j) ≡ m (p2 + 1 + j))
      → (j : ℕ) → j < suc c
      → m (p1 + j) ≡ m (p2 + j)
  same_all c p1 p2 e rest zero h = ap m (omega arith) ∙ e ∙ ap m (omega arith)
  same_all c p1 p2 e rest (suc j) h = ap m (omega arith) ∙ rest j (omega arith) ∙ ap m (omega arith)

  abbrev pub Same : ℕ → ℕ → ℕ → Type 0
  Same p1 p2 c = (j : ℕ) → j < c → m (p1 + j) ≡ m (p2 + j)

  Same-first : (c p1 p2 : ℕ) → Same p1 p2 (suc c) → m p1 ≡ m p2
  Same-first c p1 p2 all = ap m (omega arith) ∙ all 0 (omega arith) ∙ ap m (omega arith)

  Same-rest : (c p1 p2 : ℕ) → Same p1 p2 (suc c) → Same (p1 + 1) (p2 + 1) c
  Same-rest c p1 p2 all j h = ap m (omega arith) ∙ all (suc j) (omega arith) ∙ ap m (omega arith)

  -- The test of one round, whose result is `r`, and the result of the rounds after it.
  memcmp_round :
      (c p1 p2 r rest : ℕ)
      → (r ≡ 0) ↔ (m p1 ≡ m p2)
      → (rest ≡ 0) ↔ Same (p1 + 1) (p2 + 1) c
      → ((if not (r == 0) then r else rest) ≡ 0) ↔ Same p1 p2 (suc c)
  memcmp_round c p1 p2 r rest diff next = elim (Bool-cases (r == 0)) [
    | inl t ↦ rw t (
      λ e. same_all c p1 p2 (diff.0 ((==_iff _ _).0 t)) (next.0 e),
      λ all. next.1 (Same-rest c p1 p2 all),
    )
    | inr f ↦ rw f (
      λ e. absurd (==_neq _ _ f e),
      λ all. absurd (==_neq _ _ f (diff.1 (Same-first c p1 p2 all))),
    )
  ]

  -- memcmp returns 0 exactly if the two areas hold the same bytes.
  pub memcmp_iff : (c p1 p2 : ℕ) → (memcmp m p1 p2 c ≡ 0) ↔ Same p1 p2 c
  unfolding memcmp
  memcmp_iff zero p1 p2 = (λ e j h. absurd (omega arith), λ all. refl)
  memcmp_iff (suc c) p1 p2 =
      memcmp_round c p1 p2 _ _ (byte_diff _ _ (bytes _) (bytes _)) (memcmp_iff c (p1 + 1) (p2 + 1))

  -- `j` is not beyond the first 0 of the string at `s`.
  abbrev pub NotBeyond : ℕ → ℕ → Type 0
  NotBeyond s j = (i : ℕ) → i < j → m (s + i) ≢ 0

  -- Up to the first 0 of `s1`, that one included, at most `c` bytes in all are the same.
  abbrev pub SamePrefix : ℕ → ℕ → ℕ → Type 0
  SamePrefix s1 s2 c = (j : ℕ) → j < c → NotBeyond s1 j → m (s1 + j) ≡ m (s2 + j)

  prefix_first : (c s1 s2 : ℕ) → SamePrefix s1 s2 (suc c) → m s1 ≡ m s2
  prefix_first c s1 s2 all =
      ap m (omega arith) ∙ all 0 (omega arith) (λ i h. absurd (omega arith)) ∙ ap m (omega arith)

  beyond_next : (s j : ℕ) → m s ≢ 0 → NotBeyond (s + 1) j → NotBeyond s (suc j)
  beyond_next s j ne n zero h e = ne (ap m (omega arith) ∙ e)
  beyond_next s j ne n (suc i) h e = n i (omega arith) (ap m (omega arith) ∙ e)

  prefix_rest : (c s1 s2 : ℕ) → m s1 ≢ 0 → SamePrefix s1 s2 (suc c) → SamePrefix (s1 + 1) (s2 + 1) c
  prefix_rest c s1 s2 ne all j h n =
      ap m (omega arith) ∙ all (suc j) (omega arith) (beyond_next s1 j ne n) ∙ ap m (omega arith)

  prefix_all :
      (c s1 s2 : ℕ)
      → m s1 ≡ m s2
      → (m s1 ≢ 0 → SamePrefix (s1 + 1) (s2 + 1) c)
      → SamePrefix s1 s2 (suc c)
  prefix_all c s1 s2 e rest zero h n = ap m (omega arith) ∙ e ∙ ap m (omega arith)
  prefix_all c s1 s2 e rest (suc j) h n =
      ap m (omega arith)
      ∙ rest (λ z. n 0 (omega arith) (ap m (omega arith) ∙ z)) j (omega arith)
          (λ i p z. n (suc i) (omega arith) (ap m (omega arith) ∙ z))
      ∙ ap m (omega arith)

  strncmp_round :
      (c s1 s2 r rest : ℕ)
      → (r ≡ 0) ↔ (m s1 ≡ m s2)
      → (rest ≡ 0) ↔ SamePrefix (s1 + 1) (s2 + 1) c
      → ((if not (r == 0) || (m s1 == 0) then r else rest) ≡ 0) ↔ SamePrefix s1 s2 (suc c)
  strncmp_round c s1 s2 r rest diff next = elim (Bool-cases (r == 0)) [
    | inr f ↦ rw f (
      λ e. absurd (==_neq _ _ f e),
      λ all. absurd (==_neq _ _ f (diff.1 (prefix_first c s1 s2 all))),
    )
    | inl t ↦ elim (Bool-cases (m s1 == 0)) [
      | inl z ↦ rw t (
          rw z (
            λ e.
                prefix_all c s1 s2 (diff.0 ((==_iff _ _).0 t))
                  (λ ne. absurd (ne ((==_iff _ _).0 z))),
            λ all. (==_iff _ _).0 t,
          ))
      | inr z ↦ rw t (
          rw z (
            λ e. prefix_all c s1 s2 (diff.0 ((==_iff _ _).0 t)) (λ ne. next.0 e),
            λ all. next.1 (prefix_rest c s1 s2 (==_neq _ _ z) all),
          ))
    ]
  ]

  -- strncmp returns 0 exactly if the bytes of the two strings agree up to the first 0 of the first
  -- string, that 0 included, or up to the limit.
  pub strncmp_iff : (c s1 s2 : ℕ) → (strncmp m s1 s2 c ≡ 0) ↔ SamePrefix s1 s2 c
  unfolding strncmp
  strncmp_iff zero s1 s2 = (λ e j h. absurd (omega arith), λ all. refl)
  strncmp_iff (suc c) s1 s2 =
      strncmp_round c s1 s2 _ _ (char_diff _ _ (bytes _) (bytes _))
        (strncmp_iff c (s1 + 1) (s2 + 1))
