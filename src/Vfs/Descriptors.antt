-- ===== src/Vfs/Descriptors.antt =====
-- The table of file descriptors, for src/kernel/arch/x86/fs/file.c.
use larva_os.Base.{
  ℕ, zero, suc, ◌+◌, ◌<◌, ◌≡◌, ◌≢◌, refl, ◌∙◌, ◌⊎◌, inl, inr, arith, true, false, ◌==◌, ==_iff,
  ==_true, ==_false, ==_neq, Bool-cases, is_neg, Ram, null, Option, none, some, ◌>>=◌, List, [],
  ◌∷◌, length, get_or, set, length-set, get_or-set_self, get_or-set_ne,
}
use larva_os.Memory.Heap.{Heap}
use larva_os.Memory.Kheap.{kzalloc}
use larva_os.Vfs.{Filesystem, Vfs, first_null, fopen_descriptor, max_file_descriptors, put}

-- The first NULL of an array, or none.
abbrev pub FirstNull : List ℕ → Option ℕ → Type 0
FirstNull xs none = (j : ℕ) → j < length xs → get_or xs j null ≢ null
FirstNull xs (some i) =
    (i < length xs) × (get_or xs i null ≡ null) × ((j : ℕ) → j < i → get_or xs j null ≢ null)

FirstNull-cons :
    (x : ℕ) (xs : List ℕ) (r : Option ℕ)
    → x ≢ null
    → FirstNull xs r
    → FirstNull (x ∷ xs) (r >>= λ (i : ℕ). some (suc i))
FirstNull-cons x xs none ne f = later
  where
    later : (j : ℕ) → j < length (x ∷ xs) → get_or (x ∷ xs) j null ≢ null
    later zero h = ne
    later (suc j) h = f j (omega arith)
FirstNull-cons x xs (some i) ne f = (omega (arith, f.0), f.1, earlier)
  where
    earlier : (j : ℕ) → j < suc i → get_or (x ∷ xs) j null ≢ null
    earlier zero h = ne
    earlier (suc j) h = f.2 j (omega arith)

pub first_null_lem : (xs : List ℕ) → FirstNull xs (first_null xs)
unfolding first_null
first_null_lem [] = λ j h. absurd (omega arith)
first_null_lem (x ∷ xs) = elim (Bool-cases (x == null)) [
  | inl t ↦ rw t (omega arith, (==_iff _ _).0 t, λ j h. absurd (omega arith))
  | inr f ↦ rw f (FirstNull-cons x xs (first_null xs) (==_neq _ _ f) (first_null_lem xs))
]

-- The table has 512 slots, and a descriptor knows its own.
pub record WellFormed (v : Vfs) : Type 0 where
  pub count : length v.file_descriptors ≡ max_file_descriptors
  pub indexed :
      (i : ℕ)
      → i < max_file_descriptors
      → get_or v.file_descriptors i null ≢ null
      → (v.descriptors (get_or v.file_descriptors i null)).index ≡ i + 1

-- No slot holds the address.
abbrev pub NotOpen : Vfs → ℕ → Type 0
NotOpen v fd = (i : ℕ) → i < max_file_descriptors → get_or v.file_descriptors i null ≢ fd

module _ {World : Type 0} (methods : ℕ → Filesystem World) (m : Ram) (heap : Heap) (v : Vfs)
    (w : World) (disk fs p : ℕ) where
  abbrev pub fd_block : ℕ × Ram
  fd_block = kzalloc m heap 16

  abbrev pub opened : ℕ → Vfs
  opened i = record v {
    file_descriptors = set v.file_descriptors i fd_block.0;
    descriptors =
        put (put v.descriptors fd_block.0 (record { index = i + 1; fs = 0; disk = 0; p = 0 }))
          fd_block.0 (record { index = i + 1; fs = fs; disk = disk; p = p });
  }

  small : (i : ℕ) → i < max_file_descriptors → is_neg (i + 1) ≡ false
  small i h = ground arith

  pub fopen-some :
      (i : ℕ)
      → i < max_file_descriptors
      → first_null v.file_descriptors ≡ some i
      → fopen_descriptor methods m heap v w disk fs p ≡ (i + 1, fd_block.1, opened i, w)
  unfolding fopen_descriptor
  fopen-some i h e = rw e (rw (==_true fd_block.0 fd_block.0 refl, small i h) refl)

  fopen-none :
      first_null v.file_descriptors ≡ none
      → fopen_descriptor methods m heap v w disk fs p ≡ (0, m, v, w)
  unfolding fopen_descriptor
  fopen-none e = rw e refl

  opened-WellFormed :
      (i : ℕ)
      → WellFormed v
      → i < max_file_descriptors
      → (fd_block.0 ≢ null → NotOpen v fd_block.0)
      → WellFormed (opened i)
  opened-WellFormed i f h fresh = record {
    count = length-set v.file_descriptors i fd_block.0 ∙ f.count;
    indexed = λ j hj. at j hj (Bool-cases (i == j));
  }
    where
      at :
          (j : ℕ)
          → j < max_file_descriptors
          → ((i == j) ≡ true) ⊎ ((i == j) ≡ false)
          → get_or (set v.file_descriptors i fd_block.0) j null ≢ null
          → ((opened i).descriptors (get_or (set v.file_descriptors i fd_block.0) j null)).index
            ≡ j + 1
      at j hj (inl t) nz =
          let e = (==_iff i j).0 t in
          rw
            (
              ← e,
              get_or-set_self v.file_descriptors i fd_block.0 null (omega (arith, f.count)),
              ==_true fd_block.0 fd_block.0 refl,
            )
            refl
      at j hj (inr n) nz =
          let same = get_or-set_ne v.file_descriptors i j fd_block.0 null (==_neq i j n) in
          let open_j : get_or v.file_descriptors j null ≢ null = λ z. nz (same ∙ z) in
          rw (same, ==_false _ _ (other j hj open_j)) (f.indexed j hj open_j)
        where
          other :
              (j : ℕ)
              → j < max_file_descriptors
              → get_or v.file_descriptors j null ≢ null
              → get_or v.file_descriptors j null ≢ fd_block.0
          other j hj open_j e = elim (Bool-cases (fd_block.0 == null)) [
            | inl t ↦ open_j (e ∙ (==_iff _ _).0 t)
            | inr n ↦ fresh (==_neq _ _ n) j hj e
          ]

  -- What the allocation of a descriptor makes of the table: where no slot is free, nothing.
  abbrev pub Opens : ℕ × Ram × Vfs × World → Type 0
  Opens out =
      (((i : ℕ) → i < max_file_descriptors → get_or v.file_descriptors i null ≢ null)
        × (out ≡ (0, m, v, w)))
      ⊎ ((i : ℕ) × (i < max_file_descriptors)
          × (get_or v.file_descriptors i null ≡ null)
          × ((j : ℕ) → j < i → get_or v.file_descriptors j null ≢ null)
          × (out ≡ (i + 1, fd_block.1, opened i, w))
          × WellFormed (opened i)
          × (get_or (opened i).file_descriptors i null ≡ fd_block.0))

  -- In a well-formed table, where the heap does not hand out the address of an open descriptor,
  -- fopen_descriptor, the part of fopen behind the file system's open, returns the number of the
  -- first free slot, counted from 1, and the slot has what the heap gave: the new descriptor, or
  -- NULL from a full heap, so that the slot stays free. The table is well-formed again. If no slot
  -- is free it returns 0, and the memory, the table and the files are as they were before it.
  pub fopen_descriptor_lem :
      WellFormed v
      → (fd_block.0 ≢ null → NotOpen v fd_block.0)
      → Opens (fopen_descriptor methods m heap v w disk fs p)
  fopen_descriptor_lem f fresh =
      at (first_null v.file_descriptors) refl (first_null_lem v.file_descriptors)
    where
      at :
          (r : Option ℕ)
          → first_null v.file_descriptors ≡ r
          → FirstNull v.file_descriptors r
          → Opens (fopen_descriptor methods m heap v w disk fs p)
      at none e first = inl (λ i h. first i (omega (arith, f.count)), fopen-none e)
      at (some i) e first =
          let h : i < max_file_descriptors = omega (arith, first.0, f.count) in
          inr (
            i,
            h,
            first.1,
            first.2,
            fopen-some i h e,
            opened-WellFormed i f h fresh,
            get_or-set_self v.file_descriptors i fd_block.0 null first.0,
          )
