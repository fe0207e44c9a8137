-- ===== src/Vfs/Calls.antt =====
-- The calls on a file descriptor, open or not, for src/kernel/arch/x86/fs/file.c.
use larva_os.Base.{
  ℕ, zero, suc, ◌+◌, ◌-◌, ◌^◌, ◌≤◌, ◌<◌, ◌≡◌, ◌≢◌, refl, ap, subst, ◌⊎◌, inl, inr, arith, false,
  ==_true, ==_false, is_neg, Ram, null, neg32, einval, some, List, [], ◌∷◌, length, get_or, set,
  get_or-set_self,
}
use larva_os.Memory.Heap.{Heap}
use larva_os.Memory.Kheap.{kzalloc, kfree}
use larva_os.Vfs.{
  Filesystem, Vfs, fclose, first_null, fopen_descriptor, fread, fseek, fstat, get_file_descriptor,
  max_file_descriptors, release_file_descriptor,
}
use larva_os.Vfs.Descriptors.{FirstNull, first_null_lem, WellFormed, opened, fopen-some}

set_restores : (xs : List ℕ) (i fd : ℕ) → get_or xs i null ≡ null → set (set xs i fd) i null ≡ xs
set_restores [] i fd e = refl
set_restores (x ∷ xs) zero fd e = rw e
set_restores (x ∷ xs) (suc i) fd e = ap (λ (ys : List ℕ). x ∷ ys) (set_restores xs i fd e)

get_file_descriptor-slot :
    (v : Vfs) (i : ℕ)
    → i + 1 < max_file_descriptors
    → get_file_descriptor (i + 1) v ≡ get_or v.file_descriptors i null
unfolding get_file_descriptor
get_file_descriptor-slot v i h = let last : i + 1 - 1 ≡ i = omega arith in rw last (ground arith)

-- A number that names no open descriptor.
abbrev pub Unopened : Vfs → ℕ → Type 0
Unopened v fd =
    (fd ≡ 0) ⊎ (max_file_descriptors ≤ fd) ⊎ (get_or v.file_descriptors (fd - 1) null ≡ null)

get_file_descriptor-Unopened :
    (v : Vfs) (fd : ℕ) → fd < 2 ^ 32 → Unopened v fd → get_file_descriptor fd v ≡ null
unfolding get_file_descriptor
get_file_descriptor-Unopened v fd h u = ground arith

module _ {World : Type 0} (methods : ℕ → Filesystem World) (m : Ram) (heap : Heap) (v : Vfs)
    (w : World) where
  -- On a number that names no open descriptor, and on every number from 512 on, the calls return
  -- -EINVAL, and neither the memory nor the table nor the file system changes.
  pub calls_refused :
      (fd : ℕ)
      → fd < 2 ^ 32
      → Unopened v fd
      → ((ptr size nmemb : ℕ) → fread methods m v w fd ptr size nmemb ≡ (neg32 einval, m, w))
        × ((offset whence : ℕ) → fseek methods m v w fd offset whence ≡ (neg32 einval, m, w))
        × ((stat : ℕ) → fstat methods m v w fd stat ≡ (neg32 einval, m, w))
        × (fclose methods m heap v w fd ≡ (neg32 einval, m, v, w))
  unfolding fread fseek fstat fclose
  calls_refused fd h u =
      let e = get_file_descriptor-Unopened v fd h u in
      (λ ptr size nmemb. rw e (ground arith), λ offset whence. rw e, λ stat. rw e, rw e)

module _ {World : Type 0} (methods : ℕ → Filesystem World) (m : Ram) (heap : Heap) (v : Vfs)
    (w : World) (disk fs p : ℕ) where
  null_at :
      (i : ℕ) → first_null v.file_descriptors ≡ some i → get_or v.file_descriptors i null ≡ null
  null_at i e = (subst (FirstNull v.file_descriptors) e (first_null_lem v.file_descriptors)).1

  fclose-opened :
      (i : ℕ)
      → length v.file_descriptors ≡ max_file_descriptors
      → i + 1 < max_file_descriptors
      → (kzalloc m heap 16).0 ≢ null
      → (c : ℕ × Ram × World) → (methods fs).close (kzalloc m heap 16).1 w p ≡ c
      → is_neg c.0 ≡ false
      → fclose methods (kzalloc m heap 16).1 heap (opened methods m heap v w disk fs p i) w (i + 1)
        ≡ (
          c.0,
          kfree c.1 heap (kzalloc m heap 16).0,
          record (opened methods m heap v w disk fs p i) {
            file_descriptors = set (set v.file_descriptors i (kzalloc m heap 16).0) i null;
          },
          c.2,
        )
  unfolding fclose release_file_descriptor
  fclose-opened i count h nz c e ok =
      let last : i + 1 - 1 ≡ i = omega arith in
      rw (get_file_descriptor-slot (opened methods m heap v w disk fs p i) i h) (
        rw (get_or-set_self v.file_descriptors i (kzalloc m heap 16).0 null (omega (arith, count)))
          (rw (==_true (kzalloc m heap 16).0 (kzalloc m heap 16).0 refl)
            (rw (==_false (kzalloc m heap 16).0 null nz, e, ok, last) refl)))

  -- fclose of what fopen returned puts the table back as it was, if a slot below the last one was
  -- free, there was memory for the descriptor, and the file system can close the file.
  pub fclose-fopen :
      (i : ℕ)
      → WellFormed v
      → first_null v.file_descriptors ≡ some i
      → i + 1 < max_file_descriptors
      → (kzalloc m heap 16).0 ≢ null
      → is_neg ((methods fs).close (kzalloc m heap 16).1 w p).0 ≡ false
      → let (fd, m1, v1, w1) = fopen_descriptor methods m heap v w disk fs p in
        let out = fclose methods m1 heap v1 w1 fd in
        (fd ≡ i + 1)
        × (out.0 ≡ ((methods fs).close m1 w p).0)
        × (out.2.file_descriptors ≡ v.file_descriptors)
  fclose-fopen i f e h nz ok = rw (fopen-some methods m heap v w disk fs p i (omega arith) e) (
      rw (fclose-opened i f.count h nz _ refl ok)
        (refl, refl, set_restores v.file_descriptors i (kzalloc m heap 16).0 (null_at i e)))

  -- The last of the 512 slots is given out too: where it is the first one free, fopen_descriptor
  -- returns 512, and fread, fseek, fstat and fclose refuse that number afterwards with -EINVAL and
  -- change nothing.
  pub last_descriptor_unusable :
      first_null v.file_descriptors ≡ some 511
      → let (fd, m1, v1, w1) = fopen_descriptor methods m heap v w disk fs p in
        (fd ≡ 512)
        × ((ptr size nmemb : ℕ) → fread methods m1 v1 w1 fd ptr size nmemb ≡ (neg32 einval, m1, w1))
        × ((offset whence : ℕ) → fseek methods m1 v1 w1 fd offset whence ≡ (neg32 einval, m1, w1))
        × ((stat : ℕ) → fstat methods m1 v1 w1 fd stat ≡ (neg32 einval, m1, w1))
        × (fclose methods m1 heap v1 w1 fd ≡ (neg32 einval, m1, v1, w1))
  last_descriptor_unusable e = rw (fopen-some methods m heap v w disk fs p 511 (omega arith) e) (
    refl,
    λ ptr size nmemb. refuses.0 ptr size nmemb,
    λ offset whence. refuses.1 offset whence,
    λ stat. refuses.2 stat,
    refuses.3,
  )
    where
      refuses :
          ((ptr size nmemb : ℕ)
            → fread methods
                (kzalloc m heap 16).1
                (opened methods m heap v w disk fs p 511)
                w
                512
                ptr
                size
                nmemb
              ≡ (neg32 einval, (kzalloc m heap 16).1, w))
          × ((offset whence : ℕ)
              → fseek methods
                  (kzalloc m heap 16).1
                  (opened methods m heap v w disk fs p 511)
                  w
                  512
                  offset
                  whence
                ≡ (neg32 einval, (kzalloc m heap 16).1, w))
          × ((stat : ℕ)
              → fstat methods
                  (kzalloc m heap 16).1
                  (opened methods m heap v w disk fs p 511)
                  w
                  512
                  stat
                ≡ (neg32 einval, (kzalloc m heap 16).1, w))
          × (fclose methods
                (kzalloc m heap 16).1
                heap
                (opened methods m heap v w disk fs p 511)
                w
                512
              ≡ (neg32 einval, (kzalloc m heap 16).1, opened methods m heap v w disk fs p 511, w))
      refuses =
          calls_refused methods (kzalloc m heap 16).1 heap (opened methods m heap v w disk fs p 511)
            w 512 (omega arith) (inr (inl (omega arith)))
