-- ===== src/Memory/Heap/Layout.antt =====
-- How the entries of a block table divide into free blocks and allocations, for
-- src/kernel/arch/x86/memory/heap.c.
use larva_os.Base.{
  ℕ, zero, suc, ◌+◌, ◌≤◌, ◌<◌, ◌≡◌, refl, List, [], ◌∷◌, ◌++◌, arith, ◌==◌, if◌then◌else◌, Ram, at,
  replicate, ap, ◌∙◌, subst, Bool-cases, inl, inr,
}

-- A free block, or an allocation of `n + 1` blocks.
pub data Chunk : Type 0 where
  gap : Chunk
  run : ℕ → Chunk

abbrev pub blocks : List Chunk → ℕ
blocks [] = 0
blocks (gap ∷ cs) = suc (blocks cs)
blocks (run n ∷ cs) = suc n + blocks cs

abbrev pub gaps : ℕ → List Chunk
gaps n = replicate n gap

pub blocks-append : (xs ys : List Chunk) → blocks (xs ++ ys) ≡ blocks xs + blocks ys
blocks-append [] ys = omega arith
blocks-append (gap ∷ xs) ys = omega (arith, blocks-append xs ys)
blocks-append (run n ∷ xs) ys = omega (arith, blocks-append xs ys)

pub blocks-gaps : (n : ℕ) → blocks (gaps n) ≡ n
blocks-gaps zero = refl
blocks-gaps (suc n) = ap suc (blocks-gaps n)

-- What follows the first block of an allocation: `n` taken blocks, each but the last with the flag
-- that another follows.
abbrev pub Tail : Ram → ℕ → ℕ → ℕ → Type 0
Tail m e i zero = Unit
Tail m e i (suc n) = (m (at e i) ≡ (if n == 0 then 0x01 else 0x81)) × Tail m e (i + 1) n

-- The entries from block `i` on show the chunks in their order.
abbrev pub Layout : Ram → ℕ → ℕ → List Chunk → Type 0
Layout m e i [] = Unit
Layout m e i (gap ∷ cs) = (m (at e i) ≡ 0x00) × Layout m e (i + 1) cs
Layout m e i (run n ∷ cs) =
    (m (at e i) ≡ (if n == 0 then 0x41 else 0xc1)) × Tail m e (i + 1) n × Layout m e (i + suc n) cs

-- Two memories with the same entries for the blocks from `i` up to `j`.
abbrev pub SameEntries : Ram → Ram → ℕ → ℕ → ℕ → Type 0
SameEntries m m' e i j = (k : ℕ) → i ≤ k → k < j → m' (at e k) ≡ m (at e k)

module _ (m m' : Ram) (e : ℕ) where
  pub Tail-frame : (n i : ℕ) → SameEntries m m' e i (i + n) → Tail m e i n → Tail m' e i n
  Tail-frame zero i same t = tt
  Tail-frame (suc n) i same (v, t) = (
    same i (omega arith) (omega arith) ∙ v,
    Tail-frame n (i + 1) (λ k p q. same k (omega arith) (omega arith)) t,
  )

  pub Layout-frame :
      (cs : List Chunk) (i : ℕ)
      → SameEntries m m' e i (i + blocks cs)
      → Layout m e i cs
      → Layout m' e i cs
  Layout-frame [] i same l = tt
  Layout-frame (gap ∷ cs) i same (v, l) = (
    same i (omega arith) (omega arith) ∙ v,
    Layout-frame cs (i + 1) (λ k p q. same k (omega arith) (omega arith)) l,
  )
  Layout-frame (run n ∷ cs) i same (v, t, l) = (
    same i (omega arith) (omega arith) ∙ v,
    Tail-frame n (i + 1) (λ k p q. same k (omega arith) (omega arith)) t,
    Layout-frame cs (i + suc n) (λ k p q. same k (omega arith) (omega arith)) l,
  )

module _ (m : Ram) (e : ℕ) where
  pub Layout-at : (cs : List Chunk) {i j : ℕ} → i ≡ j → Layout m e i cs → Layout m e j cs
  Layout-at cs p l = subst (λ k. Layout m e k cs) p l

  pub Layout-append :
      (xs ys : List Chunk) (i : ℕ)
      → Layout m e i xs
      → Layout m e (i + blocks xs) ys
      → Layout m e i (xs ++ ys)
  Layout-append [] ys i l r = Layout-at ys (omega arith) r
  Layout-append (gap ∷ xs) ys i (v, l) r =
      (v, Layout-append xs ys (i + 1) l (Layout-at ys (omega arith) r))
  Layout-append (run n ∷ xs) ys i (v, t, l) r =
      (v, t, Layout-append xs ys (i + suc n) l (Layout-at ys (omega arith) r))

  pub Layout-split :
      (xs ys : List Chunk) (i : ℕ)
      → Layout m e i (xs ++ ys)
      → Layout m e i xs × Layout m e (i + blocks xs) ys
  Layout-split [] ys i l = (tt, Layout-at ys (omega arith) l)
  Layout-split (gap ∷ xs) ys i (v, l) =
      let (a, b) = Layout-split xs ys (i + 1) l in ((v, a), Layout-at ys (omega arith) b)
  Layout-split (run n ∷ xs) ys i (v, t, l) =
      let (a, b) = Layout-split xs ys (i + suc n) l in ((v, t, a), Layout-at ys (omega arith) b)

  -- Blocks marked as free show as gaps.
  pub Layout-gaps :
      (n i : ℕ) → ((k : ℕ) → i ≤ k → k < i + n → m (at e k) ≡ 0x00) → Layout m e i (gaps n)
  Layout-gaps zero i all = tt
  Layout-gaps (suc n) i all = (
    all i (omega arith) (omega arith),
    Layout-gaps n (i + 1) (λ k p q. all k (omega arith) (omega arith)),
  )

  pub gaps-zero :
      (n i : ℕ) → Layout m e i (gaps n) → (k : ℕ) → i ≤ k → k < i + n → m (at e k) ≡ 0x00
  gaps-zero zero i l k p q = absurd (omega arith)
  gaps-zero (suc n) i (v, l) k p q = elim (Bool-cases (k == i)) [
    | inl same ↦ ground arith
    | inr ne ↦ gaps-zero n (i + 1) l k (ground arith) (omega arith)
  ]

-- The chunks `mid` give way to `mid'`, of as many blocks.
pub Layout-replace :
    (m m' : Ram) (e : ℕ) (pre mid mid' post : List Chunk)
    → blocks mid ≡ blocks mid'
    → Layout m e 0 (pre ++ (mid ++ post))
    → Layout m' e (blocks pre) mid'
    → SameEntries m m' e 0 (blocks pre)
    → SameEntries m m' e (blocks pre + blocks mid) (blocks pre + blocks mid + blocks post)
    → Layout m' e 0 (pre ++ (mid' ++ post))
Layout-replace m m' e pre mid mid' post same l new front back =
    let (lpre, rest) = Layout-split m e pre (mid ++ post) 0 l in
    let (_, lpost) = Layout-split m e mid post (0 + blocks pre) rest in
    Layout-append m' e pre (mid' ++ post) 0
      (Layout-frame m m' e pre 0 (λ k p q. front k p (omega arith)) lpre)
      (Layout-append m' e mid' post (0 + blocks pre) (Layout-at m' e mid' (omega arith) new) (
        Layout-at m' e post (omega arith) (
          Layout-frame m m' e post (0 + blocks pre + blocks mid)
            (λ k p q. back k (omega arith) (omega arith)) lpost)))
