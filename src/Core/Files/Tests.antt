-- ===== src/Core/Files/Tests.antt =====
-- A file of the class file at concrete inputs, for src/kernel/core/file.cc.
use larva_os.Base.{ℕ, ◌+◌, ◌≤◌, refl, inl, inr, arith, none, [], ◌∷◌}
use larva_os.Memory.Heap.Layout.{gaps}
use larva_os.Memory.Kheap.Booted.{booted, booted-Shows}
use larva_os.Memory.Kheap.Laws.{kernel_heap}
use larva_os.Vfs.{Filesystem, fread, get_file_descriptor}
use larva_os.Core.Strings.Tests.{booted-IsString, given}
use larva_os.Core.Files.{File, Files, Literals, OpenFileMode, file_close, file_read, is_open}
use larva_os.Core.Files.Results.{LeftAlone, ReadsText, file_close_lem, file_read_runs_on}

-- A file system that counts its calls; the bytes that it reads are there already.
abbrev pub counting : ℕ → Filesystem ℕ
counting fs = record {
  resolve = none;
  open_file = λ m w disk path mode. (0x7000, m, w + 1);
  read = λ m w disk p size nmemb out. (nmemb, m, w + 1);
  seek = λ m w p offset mode. (0, m, w + 1);
  stat = λ m w disk p stat. (0, m, w + 1);
  close = λ m w p. (0, m, w + 1);
}

abbrev pub literals : Literals
literals = record { root = 0x100; r = 0x110; w = 0x120; a = 0x130; empty = 0x140 }

abbrev one_open : Files ℕ
one_open = record {
  ram = booted;
  vfs = record {
    filesystems = 0x9000 ∷ [];
    file_descriptors = 0x6000 ∷ [];
    descriptors = λ q. record { index = 1; fs = 0x9000; disk = 0x8000; p = 0x7000 };
  };
  world = 0;
}

abbrev first_file : File
first_file = record { fd = 1; name = 0x500; mode = OpenFileMode.read; stat = 0x600 }

file_close_lem_example :
    let (f', s') = file_close counting literals 0x8000 kernel_heap one_open first_file in
    LeftAlone counting literals 0x8000 s' f' kernel_heap
file_close_lem_example = file_close_lem counting literals 0x8000 kernel_heap one_open first_file

-- An array of three bytes, with six bytes up to the next 0.
file_read_runs_on_example :
    (3 ≤ 6)
    × ReadsText counting literals 0x8000 one_open booted 1 4096 6
        (file_read counting literals 0x8000 7 kernel_heap one_open first_file 4096 3 1)
unfolding fread get_file_descriptor is_open
file_read_runs_on_example =
    file_read_runs_on counting literals 0x8000 one_open first_file 4096 3 1 6 7 (gaps 25600) refl
      refl booted-Shows
      (record {
        string = booted-IsString;
        present = omega arith;
        off_table = inl (omega arith);
        clear = inr (omega (arith, given));
        fits = omega arith;
      })
      (omega arith) (omega (arith, given)) (λ j h. booted-IsString.inside j (omega (arith, h)))
