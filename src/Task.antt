-- ===== src/Task.antt =====
-- Tasks, src/kernel/arch/x86/task/task.c. The `struct task` objects are kept by their address, next
-- to the memory, of which they take up 64 bytes each.
pub mod Creation
pub mod Append
pub mod List
pub mod Scheduling
pub mod Queues
pub mod Turns
pub mod User
mod Tests
use larva_os.Base.{
  leb, ltb, ◌&&◌, bit_and, bit_or, ℕ, ◌+◌, ◌^◌, Bool, not, if◌then◌else◌, ◌==◌, ◌||◌, is_neg,
  is_err, Ram, null, neg32, eio, enomem, einval, slt, Option, none, some,
}
use larva_os.Libc.Strings.{strncpy}
use larva_os.Memory.Heap.{Heap}
use larva_os.Memory.Kheap.{kzalloc, kfree}
use larva_os.Memory.Paging.{
  Directories, make_new_4GB_virtual_memory_address_space, page_size, paging_get_entry_of_address,
  paging_map_page, paging_set_entry_for_virtual_address, release_4GB_virtual_memory_address_space,
  switch_to_kernel_page, switch_to_page,
}

abbrev pub program_virtual_address : ℕ
program_virtual_address = 0x400000

abbrev pub program_virtual_stack_address_start : ℕ
program_virtual_stack_address_start = 0x3ff000

abbrev pub user_data_segment : ℕ
user_data_segment = 0x23

abbrev pub user_code_segment : ℕ
user_code_segment = 0x1b

pub record Registers : Type 0 where
  pub edi : ℕ
  pub esi : ℕ
  pub ebp : ℕ
  pub ebx : ℕ
  pub edx : ℕ
  pub ecx : ℕ
  pub eax : ℕ
  pub ip : ℕ
  pub cs : ℕ
  pub flags : ℕ
  pub esp : ℕ
  pub ss : ℕ

pub record InterruptFrame : Type 0 where
  pub edi : ℕ
  pub esi : ℕ
  pub ebp : ℕ
  pub reserved : ℕ
  pub ebx : ℕ
  pub edx : ℕ
  pub ecx : ℕ
  pub eax : ℕ
  pub ip : ℕ
  pub cs : ℕ
  pub flags : ℕ
  pub esp : ℕ
  pub ss : ℕ

pub record Task : Type 0 where
  pub page_directory : ℕ
  pub registers : Registers
  pub next : ℕ
  pub prev : ℕ
  pub proc : ℕ

abbrev pub zero_registers : Registers
zero_registers = record {
  edi = 0;
  esi = 0;
  ebp = 0;
  ebx = 0;
  edx = 0;
  ecx = 0;
  eax = 0;
  ip = 0;
  cs = 0;
  flags = 0;
  esp = 0;
  ss = 0;
}

-- What `memset(task, 0, sizeof(struct task))` leaves.
abbrev pub zero_task : Task
zero_task = record { page_directory = 0; registers = zero_registers; next = 0; prev = 0; proc = 0 }

-- The static variables, the objects, and what paging.c keeps.
pub record Tasks : Type 0 where
  pub objects : ℕ → Task
  pub current_task : ℕ
  pub tail_task : ℕ
  pub head_task : ℕ
  pub directories : Directories

-- `*p = t` on a task.
abbrev pub put : (ℕ → Task) → ℕ → Task → ℕ → Task
put objects p t q = if q == p then t else objects q

abbrev pub get_current_task : Tasks → ℕ
get_current_task s = s.current_task

unfoldable pub get_next_task : Tasks → ℕ
get_next_task s =
    let next = (s.objects s.current_task).next in if next == null then s.head_task else next

-- The four steps of remove_task_from_linked_list on a task that is not NULL.
unfoldable pub unlink_prev : ℕ → Tasks → Tasks
unlink_prev task s =
    let t = s.objects task in
    if t.prev == null
    then s
    else record s { objects = put s.objects t.prev (record (s.objects t.prev) { next = t.next }) }

unfoldable pub unlink_head : ℕ → Tasks → Tasks
unlink_head task s =
    if task == s.head_task then record s { head_task = (s.objects task).next } else s

unfoldable pub unlink_tail : ℕ → Tasks → Tasks
unlink_tail task s =
    if task == s.tail_task then record s { tail_task = (s.objects task).prev } else s

unfoldable pub unlink_current : ℕ → Tasks → Tasks
unfolding get_next_task
unlink_current task s =
    if task == s.current_task then record s { current_task = get_next_task s } else s

unfoldable pub remove_task_from_linked_list : ℕ → Tasks → Tasks
unfolding unlink_prev unlink_head unlink_tail unlink_current
remove_task_from_linked_list task s =
    if task == null
    then s
    else unlink_current task (unlink_tail task (unlink_head task (unlink_prev task s)))

unfoldable pub release_task : Ram → Heap → ℕ → Tasks → Ram × Tasks
release_task m heap task s =
    if task == null
    then (m, s)
    else (let m1 =
          release_4GB_virtual_memory_address_space m heap (s.objects task).page_directory in
        let s1 = remove_task_from_linked_list task s in (kfree m1 heap task, s1))

-- PAGING_IS_PRESENT | PAGING_ACCESS_FROM_ALL.
abbrev pub task_page_flags : ℕ
task_page_flags = 0b00000101

unfoldable pub task_init : Ram → Heap → ℕ → ℕ → Tasks → ℕ × Ram × Tasks
task_init m heap task proc s =
    let (page_directory, m1) = make_new_4GB_virtual_memory_address_space m heap task_page_flags in
    let t = record zero_task { page_directory = page_directory } in
    if page_directory == null
    then (neg32 eio, m1, record s { objects = put s.objects task t })
    else (let registers = record zero_registers {
      ip = program_virtual_address;
      ss = user_data_segment;
      cs = user_code_segment;
      esp = program_virtual_stack_address_start;
    } in
        let t' = record t { registers = registers; proc = proc } in
        (0, m1, record s { objects = put s.objects task t' }))

-- The new task enters the list at its end, or makes up the list.
unfoldable pub append_task : ℕ → Tasks → Tasks
append_task task s =
    if s.head_task == null
    then record s { head_task = task; tail_task = task; current_task = task }
    else (let s1 = record s {
      objects = put s.objects s.tail_task (record (s.objects s.tail_task) { next = task });
    } in
        record s1 {
          objects = put s1.objects task (record (s1.objects task) { prev = s.tail_task });
          tail_task = task;
        })

-- What stands after `out:` in make_new_task, for an error.
unfoldable pub fail_task : Ram → Heap → ℕ → ℕ → Tasks → ℕ × Ram × Tasks
fail_task m heap res task s = let (m', s') = release_task m heap task s in (res, m', s')

unfoldable pub make_new_task : Ram → Heap → ℕ → Tasks → ℕ × Ram × Tasks
unfolding task_init append_task fail_task
make_new_task m heap proc s =
    let (task, m1) = kzalloc m heap 64 in
    if task == null
    then fail_task m1 heap (neg32 enomem) task s
    else (let (res, m2, s1) = task_init m1 heap task proc s in
        if not (res == 0)
        then (if is_neg res then fail_task m2 heap res task s1 else (task, m2, s1))
        else (task, m2, append_task task s1))

unfoldable pub task_switch : Ram → ℕ → Tasks → ℕ × Tasks
task_switch m task s = (
  0,
  record s {
    current_task = task;
    directories = switch_to_page m (s.objects task).page_directory s.directories;
  },
)

-- Loading the segment registers is assembly and has no part in this state.
unfoldable pub load_user_task_page : Ram → Tasks → ℕ × Tasks
unfolding task_switch
load_user_task_page m s = let (_, s') = task_switch m s.current_task s in (0, s')

-- The registers that task_return loads; `none` where the kernel panics.
unfoldable pub run_first_task : Ram → Tasks → Option (Registers × Tasks)
unfolding task_switch
run_first_task m s =
    if s.current_task == null
    then none
    else (let (_, s') = task_switch m s.head_task s in
        some ((s'.objects s'.head_task).registers, s'))

unfoldable pub task_save_state : ℕ → InterruptFrame → Tasks → Tasks
task_save_state task frame s = record s {
  objects = put s.objects task (record (s.objects task) {
    registers = record {
      edi = frame.edi;
      esi = frame.esi;
      ebp = frame.ebp;
      ebx = frame.ebx;
      edx = frame.edx;
      ecx = frame.ecx;
      eax = frame.eax;
      ip = frame.ip;
      cs = frame.cs;
      flags = frame.flags;
      esp = frame.esp;
      ss = frame.ss;
    };
  });
}
