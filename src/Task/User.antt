-- ===== src/Task/User.antt =====
-- Reading the memory of a program, for src/kernel/arch/x86/task/task.c.
use larva_os.Base.{
  leb, ltb, ◌&&◌, bit_and, bit_or, ℕ, ◌+◌, not, if◌then◌else◌, ◌==◌, is_neg, Ram, null, neg32, eio,
  enomem, einval, slt,
}
use larva_os.Libc.Strings.{strncpy}
use larva_os.Memory.Heap.{Heap}
use larva_os.Memory.Kheap.{kzalloc, kfree}
use larva_os.Memory.Paging.{
  page_size, paging_get_entry_of_address, paging_map_page, paging_set_entry_for_virtual_address,
  switch_to_kernel_page, switch_to_page,
}
use larva_os.Task.{Tasks}

-- The memory as a program sees it: each address goes through the entry of its page.
abbrev pub through : Ram → ℕ → Ram
through m page v =
    m (bit_or (bit_and (paging_get_entry_of_address m page v) 0xfffff000) (bit_and v 0xfff))

-- `strncpy(tmp, user_ptr, size)` under the tables of the task. The one page of `tmp` is mapped to
-- itself, so its bytes are those of the memory.
unfoldable pub copy_in : Ram → ℕ → ℕ → ℕ → ℕ → Ram
copy_in m page tmp user_ptr size q =
    let (_, seen) = strncpy (through m page) tmp user_ptr size in
    if leb tmp q && ltb q (tmp + page_size) then seen q else m q

unfoldable pub copy_from_user : Ram → Heap → ℕ → ℕ → ℕ → ℕ → Tasks → ℕ × Ram × Tasks
unfolding copy_in
copy_from_user m heap task user_ptr to size s =
    let (tmp, m1) = kzalloc m heap size in
    let page_structure = (s.objects task).page_directory in
    let old_entry = paging_get_entry_of_address m1 page_structure tmp in
    let (_, m2) = paging_map_page m1 page_structure tmp tmp 0b00000111 in
    let switched = switch_to_page m2 page_structure s.directories in
    let m3 = copy_in m2 page_structure tmp user_ptr size in
    let s1 = record s { directories = switch_to_kernel_page m3 switched } in
    let (res, m4) = paging_set_entry_for_virtual_address m3 page_structure tmp old_entry in
    let (_, m5) = strncpy m4 to tmp size in
    if not (slt size page_size)
    then (neg32 einval, m, s)
    else if tmp == null
    then (neg32 enomem, m1, s)
    else if is_neg res
    then (neg32 eio, kfree m4 heap tmp, s1)
    else (res, kfree m5 heap tmp, s1)
