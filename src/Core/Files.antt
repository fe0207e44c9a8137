-- ===== src/Core/Files.antt =====
-- The classes file and vfs of src/kernel/core/file.cc over the virtual file system. The arguments
-- of the section are the functions of the file systems, and the addresses of the literals "/", "r",
-- "w", "a" and "" and of the one disk.
pub mod Results
pub mod Tests
use larva_os.Base.{
  ℕ, ◌+◌, Bool, true, ◌==◌, if◌then◌else◌, slt, is_neg, Option, none, some, ◌>>=◌, Ram, load32,
  null,
}
use larva_os.Memory.Heap.{Heap}
use larva_os.Vfs.{Filesystem, Vfs, disk_init, fclose, fopen, fread, fs_init, fseek, fstat}
use larva_os.Core.Strings.{string_assign, string_copy, string_destroy, string_of_chars}

pub data OpenFileMode : Type 0 where
  read : OpenFileMode
  write : OpenFileMode
  append : OpenFileMode

pub data SeekFileMode : Type 0 where
  set : SeekFileMode
  cur : SeekFileMode
  end : SeekFileMode

-- `_fd`, `_name`, `_mode` and the address of `_stat`.
pub record File : Type 0 where
  pub fd : ℕ
  pub name : ℕ
  pub mode : OpenFileMode
  pub stat : ℕ

-- What a method of a file works on.
pub record Files (World : Type 0) : Type 0 where
  pub ram : Ram
  pub vfs : Vfs
  pub world : World

pub record Literals : Type 0 where
  pub root : ℕ
  pub r : ℕ
  pub w : ℕ
  pub a : ℕ
  pub empty : ℕ

-- The text of a mode, and the number of a place to seek from.
abbrev pub mode_text : Literals → OpenFileMode → ℕ
mode_text l read = l.r
mode_text l write = l.w
mode_text l append = l.a

abbrev pub c_mode : SeekFileMode → ℕ
c_mode set = 0
c_mode cur = 1
c_mode end = 2

unfoldable pub is_open : File → Bool
is_open f = slt 0 f.fd

-- file::file(filename, mode). `stat` is where the object has its `_stat`.
unfoldable pub file_new : ℕ → Ram → Heap → ℕ → OpenFileMode → ℕ → Option (File × Ram)
unfolding string_copy
file_new fuel m heap filename mode stat = string_copy fuel m heap filename >>= λ (name : ℕ × Ram).
    some (record { fd = 0; name = name.0; mode = mode; stat = stat }, name.1)

-- file::size() const.
unfoldable pub file_size : Ram → File → ℕ
file_size m f = load32 m (f.stat + 28)

module _ {World : Type 0} (methods : ℕ → Filesystem World) (l : Literals) (disk_address : ℕ) where
  -- The part of file::open behind fopen.
  unfoldable pub opened : Heap → Ram → Vfs → World → File → ℕ → ℕ → File × Files World
  opened heap m v w f fd mode =
      let f' = record f { fd = fd } in
      let (res, m1, w1) = fstat methods m v w fd f.stat in
      if is_open f'
      then (f', record { ram = string_destroy m1 heap mode; vfs = v; world = w1 })
      else (f', record { ram = string_destroy m heap mode; vfs = v; world = w })

  unfoldable pub file_open : ℕ → Heap → Files World → File → Option (File × Files World)
  unfolding opened
  file_open fuel heap s f =
      let fresh = string_of_chars fuel s.ram heap l.r >>= λ (first : ℕ × Ram).
      string_assign fuel first.1 heap first.0 (mode_text l f.mode) >>= λ (mode : ℕ × Ram).
      fopen methods (l.root, l.r, l.w, l.a) fuel mode.1 heap s.vfs s.world disk_address f.name
        mode.0
      >>= λ (out : ℕ × Ram × Vfs × World). some (opened heap out.1 out.2 out.3 f out.0 mode.0) in
      if is_open f then some (f, s) else fresh

  -- file::write is to be implemented.
  unfoldable pub file_write : Files World → File → ℕ → Files World
  file_write s f str = s

  unfoldable pub file_seekg : Files World → File → ℕ → SeekFileMode → Files World
  file_seekg s f pos mode =
      let (res, m1, w1) = fseek methods s.ram s.vfs s.world f.fd pos (c_mode mode) in
      if is_open f then record s { ram = m1; world = w1 } else s

  -- The string and the state. `buf` is the address of the local array.
  unfoldable pub file_read : ℕ → Heap → Files World → File → ℕ → ℕ → ℕ → Option (ℕ × Files World)
  file_read fuel heap s f buf size nmemb =
      let (res, m1, w1) = fread methods s.ram s.vfs s.world f.fd buf size nmemb in
      let after : Files World = record s { ram = m1; world = w1 } in
      let start = if is_open f then after else s in
      let text = if is_open f then (if is_neg res then l.empty else buf) else l.empty in
      string_of_chars fuel start.ram heap text >>= λ (str : ℕ × Ram).
      some (str.0, record start { ram = str.1 })

  unfoldable pub file_close : Heap → Files World → File → File × Files World
  file_close heap s f =
      let (res, m1, v1, w1) = fclose methods s.ram heap s.vfs s.world f.fd in
      if is_open f then (record f { fd = 0 }, record { ram = m1; vfs = v1; world = w1 }) else (f, s)

  -- file::~file(), and then that of `_name`.
  unfoldable pub file_destroy : Heap → Files World → File → Files World
  unfolding file_close
  file_destroy heap s f =
      let s1 = if is_open f then (file_close heap s f).1 else s in
      record s1 { ram = string_destroy s1.ram heap f.name }

  -- vfs::initialize(). `fat16` is what fat16_init returns.
  unfoldable pub vfs_initialize : Files World → ℕ → Option (Files World)
  vfs_initialize s fat16 = fs_init s.vfs fat16 >>= λ (v : Vfs).
      disk_init methods s.ram s.world v disk_address >>= λ (out : Ram × World).
      some (record { ram = out.0; vfs = v; world = out.1 })
