-- ===== src/Vfs.antt =====
-- The virtual file system, src/kernel/arch/x86/fs/file.c. A file system is reached through the
-- function pointers of its `struct filesystem`; they are a parameter, and so is the state that the
-- file systems keep. What the functions print is left out.
pub mod Descriptors
pub mod Calls
mod Tests
use larva_os.Base.{
  ℕ, zero, suc, ◌+◌, ◌-◌, ◌^◌, Bool, true, false, ◌&&◌, ◌||◌, not, if◌then◌else◌, ◌==◌, slt, is_neg,
  is_err, Ram, null, neg32, eio, enomem, einval, load32, store32, Option, none, some, ◌>>=◌, List,
  [], ◌∷◌, get_or, set, replicate,
}
use larva_os.Libc.Strings.{strncmp}
use larva_os.Memory.Heap.{Heap}
use larva_os.Memory.Kheap.{kzalloc, kfree}
use larva_os.Disk.{disk_sector_size, get_disk, physical_hard_disk_type}
use larva_os.Libc.Memory.{memset}
use larva_os.Path.{path_parse}

abbrev pub max_filesystems : ℕ
max_filesystems = 12

abbrev pub max_file_descriptors : ℕ
max_file_descriptors = 512

abbrev pub file_mode_read : ℕ
file_mode_read = 0

abbrev pub file_mode_write : ℕ
file_mode_write = 1

abbrev pub file_mode_append : ℕ
file_mode_append = 2

abbrev pub file_mode_invalid : ℕ
file_mode_invalid = 3

-- The functions of a `struct filesystem` over the state `World` of the file systems. `resolve` may
-- be missing, and a call of it that does not return is `none`; the others return.
pub record Filesystem (World : Type 0) : Type 0 where
  pub resolve : Option (Ram → World → ℕ → Option (ℕ × Ram × World))
  pub open_file : Ram → World → ℕ → ℕ → ℕ → ℕ × Ram × World
  pub read : Ram → World → ℕ → ℕ → ℕ → ℕ → ℕ → ℕ × Ram × World
  pub seek : Ram → World → ℕ → ℕ → ℕ → ℕ × Ram × World
  pub stat : Ram → World → ℕ → ℕ → ℕ → ℕ × Ram × World
  pub close : Ram → World → ℕ → ℕ × Ram × World

pub record FileDescriptor : Type 0 where
  pub index : ℕ
  pub fs : ℕ
  pub disk : ℕ
  pub p : ℕ

-- The two static arrays, of pointers, and the descriptors by their address.
pub record Vfs : Type 0 where
  pub filesystems : List ℕ
  pub file_descriptors : List ℕ
  pub descriptors : ℕ → FileDescriptor

-- `*p = d` on a descriptor.
abbrev pub put : (ℕ → FileDescriptor) → ℕ → FileDescriptor → ℕ → FileDescriptor
put descriptors p d q = if q == p then d else descriptors q

-- The first index at which the array holds NULL; `none` where it holds none.
unfoldable pub first_null : List ℕ → Option ℕ
first_null [] = none
first_null (x ∷ xs) = if x == null then some 0 else first_null xs >>= λ (i : ℕ). some (suc i)

-- The slot of a free file system.
unfoldable pub fs_get_free_filesystem : Vfs → Option ℕ
unfolding first_null
fs_get_free_filesystem v = first_null v.filesystems

-- `none` is the endless loop where no slot is free.
unfoldable pub fs_insert_filesystem : Vfs → ℕ → Option Vfs
unfolding fs_get_free_filesystem
fs_insert_filesystem v fs = fs_get_free_filesystem v >>= λ (free_fs : ℕ).
    some (record v { filesystems = set v.filesystems free_fs fs })

-- `fat16` is what fat16_init returns.
unfoldable pub fs_load : Vfs → ℕ → Option Vfs
unfolding fs_insert_filesystem
fs_load v fat16 =
    fs_insert_filesystem (record v { filesystems = replicate max_filesystems null }) fat16

unfoldable pub fs_init : Vfs → ℕ → Option Vfs
unfolding fs_load
fs_init v fat16 =
    fs_load (record v { file_descriptors = replicate max_file_descriptors null }) fat16

-- What make_new_file_descriptor does with the first free slot.
unfoldable pub make_at : Option ℕ → Ram → Heap → Vfs → ℕ × Option ℕ × Ram × Vfs
make_at none m heap v = (neg32 enomem, none, m, v)
make_at (some i) m heap v =
    let (fd, m1) = kzalloc m heap 16 in
    let new : FileDescriptor = record { index = i + 1; fs = 0; disk = 0; p = 0 } in
    (
      0,
      some fd,
      m1,
      record v {
        file_descriptors = set v.file_descriptors i fd;
        descriptors = put v.descriptors fd new;
      },
    )

-- The result, the descriptor that `*fd_out` gets, where it gets one, and the state.
unfoldable pub make_new_file_descriptor : Ram → Heap → Vfs → ℕ × Option ℕ × Ram × Vfs
unfolding first_null make_at
make_new_file_descriptor m heap v = make_at (first_null v.file_descriptors) m heap v

unfoldable pub release_file_descriptor : Ram → Heap → ℕ → Vfs → Ram × Vfs
release_file_descriptor m heap fd v = (
  kfree m heap fd,
  record v { file_descriptors = set v.file_descriptors ((v.descriptors fd).index - 1) null },
)

-- `index <= 0` and `index >= MAX_FILE_DESCRIPTORS` on `int`.
unfoldable pub get_file_descriptor : ℕ → Vfs → ℕ
get_file_descriptor index v =
    if not (slt 0 index) || not (slt index max_file_descriptors)
    then null
    else get_or v.file_descriptors (index - 1) null

-- `r`, `w` and `a` are the addresses of the literals "r", "w" and "a".
unfoldable pub get_file_mode_by_string : ℕ → ℕ → ℕ → Ram → ℕ → ℕ
get_file_mode_by_string r w a m str =
    if strncmp m str r 1 == 0
    then file_mode_read
    else if strncmp m str w 1 == 0
    then file_mode_write
    else if strncmp m str a 1 == 0
    then file_mode_append
    else file_mode_invalid

-- What fopen returns in place of a negative result.
abbrev pub fopen_result : ℕ → ℕ
fopen_result res = if is_neg res then 0 else res

module _ {World : Type 0} (methods : ℕ → Filesystem World) where
  -- The loop of fs_resolve over the slots that are left.
  unfoldable pub resolve_from : List ℕ → Ram → World → ℕ → Option (ℕ × Ram × World)
  resolve_from [] m w disk = some (null, m, w)
  resolve_from (fs ∷ rest) m w disk =
      if fs == null then resolve_from rest m w disk else elim (methods fs).resolve [
        | none ↦ resolve_from rest m w disk
        | some resolve ↦ resolve m w disk >>= λ (out : ℕ × Ram × World).
            let later = resolve_from rest out.1 out.2 disk in
            if out.0 == null then some (fs, out.1, out.2) else later
      ]

  unfoldable pub fs_resolve : Ram → World → Vfs → ℕ → Option (ℕ × Ram × World)
  unfolding resolve_from
  fs_resolve m w v disk = resolve_from v.filesystems m w disk

  -- What fopen makes of the result of make_new_file_descriptor.
  unfoldable pub fill_descriptor :
      ℕ × Option ℕ × Ram × Vfs → World → ℕ → ℕ → ℕ → ℕ × Ram × Vfs × World
  fill_descriptor (res, none, m, v) w disk fs fd_private_data = (fopen_result res, m, v, w)
  fill_descriptor (res, some fd, m, v) w disk fs fd_private_data =
      let d = record (v.descriptors fd) { fs = fs; p = fd_private_data; disk = disk } in
      (fopen_result d.index, m, record v { descriptors = put v.descriptors fd d }, w)

  -- The part of fopen behind the call of the file system, with what that returned.
  unfoldable pub fopen_descriptor : Ram → Heap → Vfs → World → ℕ → ℕ → ℕ → ℕ × Ram × Vfs × World
  unfolding make_new_file_descriptor fill_descriptor
  fopen_descriptor m heap v w disk fs fd_private_data =
      fill_descriptor (make_new_file_descriptor m heap v) w disk fs fd_private_data

  -- The part of fopen behind path_parse, with the root part that this returned. `disk_address` is
  -- the address of the one disk.
  unfoldable pub fopen_parsed : Ram → Heap → Vfs → World → ℕ → ℕ → ℕ → ℕ × Ram × Vfs × World
  unfolding fopen_descriptor
  fopen_parsed m heap v w disk_address root mode =
      let disk = get_disk disk_address 0 in
      let fs = load32 m (disk + 12) in
      let (fd_private_data, m1, w1) = (methods fs).open_file m w disk root mode in
      if root == null
      then (fopen_result (neg32 einval), m, v, w)
      else if disk == null
      then (fopen_result (neg32 eio), m, v, w)
      else if fs == null
      then (fopen_result (neg32 eio), m, v, w)
      else if mode == file_mode_invalid
      then (fopen_result (neg32 einval), m, v, w)
      else if is_err fd_private_data
      then (fopen_result fd_private_data, m1, v, w1)
      else fopen_descriptor m1 heap v w1 disk fs fd_private_data

  -- The literals "/", "r", "w" and "a" stand at the first four addresses.
  unfoldable pub fopen :
      ℕ × ℕ × ℕ × ℕ → ℕ → Ram → Heap → Vfs → World → ℕ → ℕ → ℕ → Option (ℕ × Ram × Vfs × World)
  unfolding fopen_parsed
  fopen literals fuel m heap v w disk_address file_name mode_of_operation =
      path_parse fuel literals.0 m heap file_name >>= λ (root : ℕ × Ram).
      let mode =
        get_file_mode_by_string literals.1 literals.2 literals.3 root.1 mode_of_operation in
      some (fopen_parsed root.1 heap v w disk_address root.0 mode)

  -- disk_init of disk.c: the five words of the disk. `none` is a `resolve` that does not return.
  unfoldable pub disk_init : Ram → World → Vfs → ℕ → Option (Ram × World)
  unfolding fs_resolve
  disk_init m w v disk_address =
      let m1 = memset m disk_address 0 20 in
      let m2 = store32 m1 disk_address physical_hard_disk_type in
      let m3 = store32 m2 (disk_address + 4) disk_sector_size in
      let m4 = store32 m3 (disk_address + 8) 0 in
      fs_resolve m4 w v disk_address >>= λ (out : ℕ × Ram × World).
      some (store32 out.1 (disk_address + 12) out.0, out.2)

  unfoldable pub fread : Ram → Vfs → World → ℕ → ℕ → ℕ → ℕ → ℕ × Ram × World
  fread m v w fd ptr size nmemb =
      let desc = get_file_descriptor fd v in
      let d = v.descriptors desc in
      if slt fd 1 || (size == 0) || (nmemb == 0)
      then (neg32 einval, m, w)
      else if desc == null
      then (neg32 einval, m, w)
      else (methods d.fs).read m w d.disk d.p size nmemb ptr

  unfoldable pub fseek : Ram → Vfs → World → ℕ → ℕ → ℕ → ℕ × Ram × World
  fseek m v w fd offset whence =
      let desc = get_file_descriptor fd v in
      let d = v.descriptors desc in
      if desc == null then (neg32 einval, m, w) else (methods d.fs).seek m w d.p offset whence

  unfoldable pub fstat : Ram → Vfs → World → ℕ → ℕ → ℕ × Ram × World
  fstat m v w fd stat =
      let desc = get_file_descriptor fd v in
      let d = v.descriptors desc in
      if desc == null then (neg32 einval, m, w) else (methods d.fs).stat m w d.disk d.p stat

  unfoldable pub fclose : Ram → Heap → Vfs → World → ℕ → ℕ × Ram × Vfs × World
  unfolding release_file_descriptor
  fclose m heap v w fd =
      let desc = get_file_descriptor fd v in
      let d = v.descriptors desc in
      let (res, m1, w1) = (methods d.fs).close m w d.p in
      if desc == null
      then (neg32 einval, m, v, w)
      else if is_neg res
      then (res, m1, v, w1)
      else (let (m2, v') = release_file_descriptor m1 heap desc v in (res, m2, v', w1))
