-- ===== src/Core/Files/Results.antt =====
-- What the methods of the class file promise, for src/kernel/core/file.cc.
use larva_os.Base.{
  ℕ, ◌+◌, ◌≤◌, ◌<◌, ◌≡◌, refl, ◌≢◌, inl, inr, true, false, Bool-cases, is_neg, Option, some, ◌>>=◌,
  Ram, null, List,
}
use larva_os.Disk.Stream.Round.{ltb-cases}
use larva_os.Libc.Strings.Length.{IsString}
use larva_os.Memory.Heap.{Heap}
use larva_os.Memory.Heap.Layout.{Chunk}
use larva_os.Memory.Heap.Refine.{Shows}
use larva_os.Memory.Kheap.{kmalloc}
use larva_os.Memory.Kheap.Laws.{kernel_heap}
use larva_os.Vfs.{Filesystem, fread}
use larva_os.Core.Strings.{string_of_chars}
use larva_os.Core.Strings.Lifetime.{IsText, string_lifetime}
use larva_os.Core.Files.{
  File, Files, Literals, SeekFileMode, file_close, file_read, file_seekg, is_open,
}

module _ {World : Type 0} (methods : ℕ → Filesystem World) (l : Literals) (disk_address : ℕ)
    (s : Files World) (f : File) where
  -- The state with another string in memory.
  abbrev pub with_string : ℕ × Ram → ℕ × Files World
  with_string str = (str.0, record s { ram = str.1 })

  -- Reading from a file that is not open: a new empty string.
  abbrev pub nothing_read : ℕ → Heap → Option (ℕ × Files World)
  nothing_read fuel heap =
      string_of_chars fuel s.ram heap l.empty >>= λ (str : ℕ × Ram). some (with_string str)

  -- On a file that is not open the methods that ask the file system leave it alone: file::seekg and
  -- file::close change nothing, and file::read makes an empty string.
  abbrev pub LeftAlone : Heap → Type 0
  LeftAlone heap =
      ((pos : ℕ) (mode : SeekFileMode) → file_seekg methods l disk_address s f pos mode ≡ s)
      × (file_close methods l disk_address heap s f ≡ (f, s))
      × ((fuel buf size nmemb : ℕ)
          → file_read methods l disk_address fuel heap s f buf size nmemb ≡ nothing_read fuel heap)

  left_alone : (heap : Heap) → is_open f ≡ false → LeftAlone heap
  unfolding file_seekg file_close file_read
  left_alone heap shut =
      (λ pos mode. rw shut refl, rw shut refl, λ fuel buf size nmemb. rw shut refl)

module _ {World : Type 0} (methods : ℕ → Filesystem World) (l : Literals) (disk_address : ℕ) where
  shut_now : (f : File) → is_open (record f { fd = 0 }) ≡ false
  unfolding is_open
  shut_now f = refl

  file_close-shut :
      (heap : Heap) (s : Files World) (f : File)
      → is_open (file_close methods l disk_address heap s f).0 ≡ false
  unfolding file_close
  file_close-shut heap s f = elim (Bool-cases (is_open f)) [
    | inl t ↦ rw t (shut_now f)
    | inr e ↦ rw e e
  ]

  -- Behind file::close, of a file that was open or not, file::seekg and a second file::close change
  -- nothing, and file::read asks no file system and makes an empty string.
  pub file_close_lem :
      (heap : Heap) (s : Files World) (f : File)
      → let (f', s') = file_close methods l disk_address heap s f in
        LeftAlone methods l disk_address s' f' heap
  file_close_lem heap s f =
      let (f', s') = file_close methods l disk_address heap s f in
      left_alone methods l disk_address s' f' heap (file_close-shut heap s f)

  -- What file::read returns for the `n` bytes at `buf` of the memory `m`.
  abbrev pub ReadsText : Files World → Ram → World → ℕ → ℕ → Option (ℕ × Files World) → Type 0
  ReadsText s m w buf n r =
      let p = (kmalloc m kernel_heap (n + 1)).0 in
      (m' : Ram) × (r ≡ some (p, record s { ram = m'; world = w }))
      × IsString m' p n
      × ((j : ℕ) → j ≤ n → m' (p + j) ≡ m (buf + j))

  module _ (s : Files World) (f : File) (buf size nmemb n : ℕ) where
    abbrev pub got : ℕ × Ram × World
    got = fread methods s.ram s.vfs s.world f.fd buf size nmemb

    -- The block that the string gets.
    abbrev pub place : ℕ
    place = (kmalloc got.1 kernel_heap (n + 1)).0

    -- file::read of an open file, whose fread succeeds and leaves no 0 among the `size` bytes of
    -- the local array, returns a string of at least `size` bytes: the array's and those that stand
    -- behind it up to the first 0. The table of the heap shows a list, the heap has a block for the
    -- string, and the bytes up to that 0 are not in the table or in the block.
    pub file_read_runs_on :
        (fuel : ℕ) (cs : List Chunk)
        → is_open f ≡ true
        → is_neg got.0 ≡ false
        → Shows got.1 kernel_heap cs
        → IsText got.1 buf n place
        → n < fuel
        → place ≢ null
        → ((j : ℕ) → j < size → got.1 (buf + j) ≢ 0)
        → (size ≤ n)
          × ReadsText s got.1 got.2 buf n
              (file_read methods l disk_address fuel kernel_heap s f buf size nmemb)
    unfolding file_read
    file_read_runs_on fuel cs ready good shows t enough given no_end =
        let (m', e, string, text, _, _, _) =
          string_lifetime got.1 cs shows buf n fuel t enough given in
        (
          elim (ltb-cases n size) [
            | inl short ↦ absurd (no_end n short t.string.end)
            | inr long ↦ long
          ],
          rw (ready, good, e) (m', refl, string, text),
        )
