-- ===== src/Path.antt =====
-- Paths, src/kernel/arch/x86/fs/path_parser.c. A `struct path_part` is eight bytes of the kernel
-- heap: `part`, then `next`. Every loop that ends with the string runs on fuel; `none` says that it
-- ran out.
pub mod Parts
mod Tests
use larva_os.Base.{
  ℕ, zero, suc, ◌+◌, ◌-◌, Bool, ◌&&◌, if◌then◌else◌, ◌==◌, leb, Ram, null, write, load32, store32,
  Option, none, some, ◌>>=◌,
}
use larva_os.Libc.Memory.{memcpy}
use larva_os.Libc.Strings.{memcmp, strchr, strlen, strnlen}
use larva_os.Memory.Heap.{Heap}
use larva_os.Memory.Kheap.{kzalloc, kfree}

abbrev pub filesystem_max_path_length : ℕ
filesystem_max_path_length = 100

abbrev pub slash : ℕ
slash = b'/'

-- `root_path` is the address of the literal FILESYSTEM_ROOT_PATH, which is "/".
unfoldable pub path_format_is_valid : ℕ → Ram → ℕ → Option Bool
path_format_is_valid root_path m filename =
    let length = strnlen m filename filesystem_max_path_length in
    strlen 2 m root_path 0 >>= λ (root_path_length : ℕ).
    some (leb root_path_length length && (memcmp m filename root_path root_path_length == 0))

-- The part of the path that is returned, the path after it, and the memory.
unfoldable pub get_and_remove_prefix_path : ℕ → Ram → Heap → ℕ → Option (ℕ × ℕ × Ram)
get_and_remove_prefix_path zero m heap parent_path = none
get_and_remove_prefix_path (suc fuel) m heap parent_path =
    let skipped = get_and_remove_prefix_path fuel m heap (parent_path + 1) in
    strchr (suc fuel) m parent_path slash >>= λ (suffix_path : ℕ).
    strlen (suc fuel) m parent_path 0 >>= λ (length_of_parent_path : ℕ).
    let suffix_path' =
      if suffix_path == null then parent_path + length_of_parent_path else suffix_path in
    let position = suffix_path' - parent_path in
    let (path, m1) = kzalloc m heap (position + 1) in
    let m3 = write (memcpy m1 path parent_path position) (path + position) 0 in
    if (suffix_path == null) && (length_of_parent_path == 0)
    then some (null, parent_path, m)
    else if position == 0
    then skipped
    else some (path, parent_path + position, m3)

unfoldable pub parse_one_path_part : ℕ → Ram → Heap → ℕ → Option (ℕ × ℕ × Ram)
parse_one_path_part fuel m heap path =
    get_and_remove_prefix_path fuel m heap path >>= λ (prefix : ℕ × ℕ × Ram).
    let (part, m1) = kzalloc prefix.2 heap 8 in
    if prefix.0 == null
    then some (null, prefix.1, prefix.2)
    else some (part, prefix.1, store32 (store32 m1 (part + 4) null) part prefix.0)

-- `while (part) { next = parse_one_path_part(&tmp_path); part->next = next; part = next; }`
unfoldable pub parse_rest : ℕ → ℕ → Ram → Heap → ℕ → ℕ → Option Ram
parse_rest zero fuel m heap part path = none
parse_rest (suc rounds) fuel m heap part path =
    if part == null
    then some m
    else parse_one_path_part fuel m heap path >>= λ (one : ℕ × ℕ × Ram).
        parse_rest rounds fuel (store32 one.2 (part + 4) one.0) heap one.0 one.1

-- What path_parse does with a path that is valid.
unfoldable pub parse_parts : ℕ → Ram → Heap → ℕ → Option (ℕ × Ram)
unfolding parse_rest
parse_parts fuel m heap path = parse_one_path_part fuel m heap path >>= λ (root : ℕ × ℕ × Ram).
    if root.0 == null
    then some (null, root.2)
    else parse_one_path_part fuel root.2 heap root.1 >>= λ (one : ℕ × ℕ × Ram).
        parse_rest fuel fuel (store32 one.2 (root.0 + 4) one.0) heap one.0 one.1 >>= λ (m' : Ram).
        some (root.0, m')

-- The root part, or NULL, and the memory.
unfoldable pub path_parse : ℕ → ℕ → Ram → Heap → ℕ → Option (ℕ × Ram)
unfolding parse_parts
path_parse fuel root_path m heap path = path_format_is_valid root_path m path >>= λ (valid : Bool).
    if valid then parse_parts fuel m heap path else some (null, m)

-- The loop of free_root_path, from `part` on.
unfoldable pub free_parts : ℕ → Ram → Heap → ℕ → Option Ram
free_parts zero m heap part = none
free_parts (suc fuel) m heap part =
    let next = load32 m (part + 4) in
    let rest = free_parts fuel (kfree (kfree m heap (load32 m part)) heap part) heap next in
    if part == null then some m else rest

unfoldable pub free_root_path : ℕ → Ram → Heap → ℕ → Option Ram
unfolding free_parts
free_root_path fuel m heap root =
    free_parts fuel m heap (load32 m (root + 4)) >>= λ (m' : Ram). some (kfree m' heap root)
