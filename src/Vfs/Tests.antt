-- ===== src/Vfs/Tests.antt =====
-- The table of file descriptors at work, for src/kernel/arch/x86/fs/file.c.
use larva_os.Base.{
  ℕ, ◌+◌, ◌≡◌, ◌≢◌, inr, refl, sym, ◌∙◌, arith, some, null, neg32, einval, [], ◌∷◌, ◌++◌,
  length-replicate, replicate, get_or, get_or-replicate,
}
use larva_os.Memory.Heap.Small.{malloc_first, small_heap, zeros}
use larva_os.Memory.Kheap.{kmalloc, kzalloc}
use larva_os.Vfs.{
  FileDescriptor, Filesystem, Vfs, fclose, first_null, fopen_descriptor, fread, fseek, fstat,
  max_file_descriptors,
}
use larva_os.Vfs.Descriptors.{Opens, WellFormed, fopen_descriptor_lem}
use larva_os.Vfs.Calls.{fclose-fopen, last_descriptor_unusable, calls_refused}

-- A file system that counts its calls and accepts everything.
abbrev counting : ℕ → Filesystem ℕ
counting fs = record {
  resolve = some (λ m w disk. some (0, m, w + 1));
  open_file = λ m w disk path mode. (0x7000, m, w + 1);
  read = λ m w disk p size nmemb out. (nmemb, m, w + 1);
  seek = λ m w p offset mode. (0, m, w + 1);
  stat = λ m w disk p stat. (0, m, w + 1);
  close = λ m w p. (0, m, w + 1);
}

no_descriptor : ℕ → FileDescriptor
no_descriptor q = record { index = 0; fs = 0; disk = 0; p = 0 }

empty : Vfs
empty = record {
  filesystems = replicate 12 null;
  file_descriptors = replicate max_file_descriptors null;
  descriptors = no_descriptor;
}

no_slot : (i : ℕ) → get_or empty.file_descriptors i null ≡ null
unfolding empty
no_slot i = get_or-replicate max_file_descriptors i null

empty-WellFormed : WellFormed empty
unfolding empty
empty-WellFormed = record {
  count = length-replicate max_file_descriptors null;
  indexed = λ i h ne. absurd (ne (no_slot i));
}

fopen_descriptor_lem_example :
    Opens counting zeros small_heap empty 0 0x9000 0x8000 0x7000
      (fopen_descriptor counting zeros small_heap empty 0 0x9000 0x8000 0x7000)
fopen_descriptor_lem_example =
    fopen_descriptor_lem counting zeros small_heap empty 0 0x9000 0x8000 0x7000 empty-WellFormed
      (λ nz i h e. nz (sym e ∙ no_slot i))

calls_refused_example :
    ((ptr size nmemb : ℕ)
      → fread counting zeros empty 0 3 ptr size nmemb ≡ (neg32 einval, zeros, 0))
    × ((offset whence : ℕ)
        → fseek counting zeros empty 0 3 offset whence ≡ (neg32 einval, zeros, 0))
    × ((stat : ℕ) → fstat counting zeros empty 0 3 stat ≡ (neg32 einval, zeros, 0))
    × (fclose counting zeros small_heap empty 0 3 ≡ (neg32 einval, zeros, empty, 0))
calls_refused_example =
    calls_refused counting zeros small_heap empty 0 3 (omega arith) (inr (inr (no_slot 2)))

first_slot : first_null empty.file_descriptors ≡ some 0
unfolding first_null empty
first_slot = refl

room : (kzalloc zeros small_heap 16).0 ≢ null
unfolding kzalloc kmalloc
room = rw malloc_first (omega arith)

fclose-fopen_example :
    let (fd, m1, v1, w1) =
      fopen_descriptor counting zeros small_heap empty 0 0x9000 0x8000 0x7000 in
    let out = fclose counting m1 small_heap v1 w1 fd in
    (fd ≡ 1) × (out.0 ≡ 0) × (out.2.file_descriptors ≡ empty.file_descriptors)
fclose-fopen_example =
    fclose-fopen counting zeros small_heap empty 0 0x9000 0x8000 0x7000 0 empty-WellFormed
      first_slot (omega arith) room refl

-- 511 files are open.
full : Vfs
full = record {
  filesystems = replicate 12 null;
  file_descriptors = replicate 511 0x5000 ++ (null ∷ []);
  descriptors = no_descriptor;
}

last_slot : first_null full.file_descriptors ≡ some 511
unfolding first_null full
last_slot = refl

last_descriptor_unusable_example :
    let (fd, m1, v1, w1) = fopen_descriptor counting zeros small_heap full 0 0x9000 0x8000 0x7000 in
    (fd ≡ 512)
    × ((ptr size nmemb : ℕ) → fread counting m1 v1 w1 fd ptr size nmemb ≡ (neg32 einval, m1, w1))
    × ((offset whence : ℕ) → fseek counting m1 v1 w1 fd offset whence ≡ (neg32 einval, m1, w1))
    × ((stat : ℕ) → fstat counting m1 v1 w1 fd stat ≡ (neg32 einval, m1, w1))
    × (fclose counting m1 small_heap v1 w1 fd ≡ (neg32 einval, m1, v1, w1))
last_descriptor_unusable_example =
    last_descriptor_unusable counting zeros small_heap full 0 0x9000 0x8000 0x7000 last_slot
