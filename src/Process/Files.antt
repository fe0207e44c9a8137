-- ===== src/Process/Files.antt =====
-- file.c as the files of src/kernel/arch/x86/task/process.c.
use larva_os.Base.{ℕ, Ram, some, ◌>>=◌}
use larva_os.Memory.Heap.{Heap}
use larva_os.Process.{FileCalls}
use larva_os.Vfs
use larva_os.Vfs.{Filesystem}

module _ {World : Type 0} (methods : ℕ → Filesystem World) (heap : Heap) (disk_address : ℕ) where
  -- `r` is the address of the literal "r".
  abbrev pub vfs_files : ℕ × ℕ × ℕ × ℕ → ℕ → ℕ → FileCalls (Vfs.Vfs × World)
  vfs_files literals fuel r = record {
    fopen = λ m s filename.
        Vfs.fopen methods literals fuel m heap s.0 s.1 disk_address filename r
        >>= λ (out : ℕ × Ram × Vfs.Vfs × World). some (out.0, out.1, (out.2, out.3));
    fstat = λ m s fd stat.
        (let (res, m', w) = Vfs.fstat methods m s.0 s.1 fd stat in (res, m', (s.0, w)));
    fread = λ m s fd ptr size nmemb.
        (let (res, m', w) = Vfs.fread methods m s.0 s.1 fd ptr size nmemb in (res, m', (s.0, w)));
  }
