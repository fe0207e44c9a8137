-- ===== src/Process.antt =====
-- Processes, src/kernel/arch/x86/task/process.c. The `struct process` objects are kept by their
-- address, but for `binary_file` and `memory_allocations`, whose bytes stand in the memory. The
-- files are reached through an interface, which file.c fills (Process/Files).
pub mod Files
pub mod Slots
mod Tests
use larva_os.Base.{
  ℕ, zero, suc, ◌+◌, ◌-◌, ◌*◌, ◌^◌, Bool, ◌||◌, ◌&&◌, not, if◌then◌else◌, ◌==◌, slt, is_neg, is_err,
  u16, u32, leb, Ram, null, neg32, eio, enomem, esrch, load32, Option, none, some, ◌>>=◌, List, [],
  ◌∷◌, get_or, set,
}
use larva_os.Libc.Memory.{memset}
use larva_os.Libc.Strings.{strncpy}
use larva_os.Memory.Heap.{Heap}
use larva_os.Memory.Kheap.{kzalloc, kfree}
use larva_os.Memory.Paging.{paging_align_address, paging_map_virtual_memory}
use larva_os.Task.{Tasks, make_new_task, program_virtual_address, release_task}

abbrev pub max_processes : ℕ
max_processes = 20

abbrev pub user_program_stack_size : ℕ
user_program_stack_size = 1024 * 16

-- sizeof(struct process), and where `binary_file` stands in it.
abbrev pub process_bytes : ℕ
process_bytes = 4216

abbrev pub binary_file_offset : ℕ
binary_file_offset = 2

abbrev pub binary_file_bytes : ℕ
binary_file_bytes = 100

pub record Process : Type 0 where
  pub id : ℕ
  pub task : ℕ
  pub physical_pointer : ℕ
  pub size : ℕ
  pub stack_pointer : ℕ

abbrev pub zero_process : Process
zero_process = record { id = 0; task = 0; physical_pointer = 0; size = 0; stack_pointer = 0 }

-- fopen(filename, "r"), fstat and fread. `none` is a fopen that does not end;
-- fstat and fread are taken to return.
pub record FileCalls (World : Type 0) : Type 0 where
  pub fopen : Ram → World → ℕ → Option (ℕ × Ram × World)
  pub fstat : Ram → World → ℕ → ℕ → ℕ × Ram × World
  pub fread : Ram → World → ℕ → ℕ → ℕ → ℕ → ℕ × Ram × World

-- The memory, the files, the tasks, and the static variables of process.c with their objects.
-- `process_out` is the variable that the argument `process` of load_process points to.
pub record System (World : Type 0) : Type 0 where
  pub ram : Ram
  pub world : World
  pub tasks : Tasks
  pub current_process : ℕ
  pub processes : List ℕ
  pub process_out : ℕ
  pub objects : ℕ → Process

abbrev pub get_current_process : {World : Type 0} → System World → ℕ
get_current_process s = s.current_process

-- The index of the first slot that is free, from `i` on.
unfoldable pub free_slot_from : List ℕ → ℕ → ℕ
free_slot_from [] i = neg32 enomem
free_slot_from (p ∷ rest) i = if p == null then i else free_slot_from rest (i + 1)

module _ {World : Type 0} where
  -- `*p = k` on a process.
  abbrev pub put : System World → ℕ → Process → System World
  put s p k = record s { objects = λ q. if q == p then k else s.objects q }

  unfoldable pub process_init : ℕ → System World → System World
  process_init proc s = put (record s { ram = memset s.ram proc 0 process_bytes }) proc zero_process

  unfoldable pub get_process_by_id : ℕ → System World → ℕ
  get_process_by_id id s =
      if is_neg id || not (slt id max_processes) then null else get_or s.processes id null

  unfoldable pub process_map_binary : ℕ → System World → ℕ × System World
  process_map_binary process s =
      let p = s.objects process in
      let (res, m) =
        paging_map_virtual_memory s.ram (s.tasks.objects p.task).page_directory
          program_virtual_address p.physical_pointer
          (paging_align_address (u32 (p.physical_pointer + p.size))) 0b00000111 in
      (res, record s { ram = m })

  unfoldable pub process_map_virtual_memory : ℕ → System World → ℕ × System World
  unfolding process_map_binary
  process_map_virtual_memory process s = process_map_binary process s

  unfoldable pub process_get_free_slot : System World → ℕ
  unfolding free_slot_from
  process_get_free_slot s = free_slot_from s.processes 0

  -- What stands after `out:` in process_load_for_slot.
  unfoldable pub finish_load : Heap → ℕ → ℕ → System World → ℕ × System World
  finish_load heap res tmp_process s =
      let task = (s.objects tmp_process).task in
      let (m1, t1) = release_task s.ram heap task s.tasks in
      let s1 =
        if not (tmp_process == null) && not (task == null)
        then record s { ram = m1; tasks = t1 }
        else s in
      if is_neg res then (res, record s1 { ram = kfree s1.ram heap tmp_process }) else (res, s)

  module _ (files : FileCalls World) (heap : Heap) (stat : ℕ) where
    -- The part of process_load_binary behind a successful fopen. `stat` is the address of the local
    -- `struct file_stat`, whose `filesize` stands at offset 28. The file is not closed.
    unfoldable pub load_opened : ℕ → ℕ → System World → ℕ × System World
    load_opened fd process s =
        let (res, m1, w1) = files.fstat s.ram s.world fd stat in
        let filesize = load32 m1 (stat + 28) in
        let (program_data_ptr, m2) = kzalloc m1 heap filesize in
        let (read, m3, w3) = files.fread m2 w1 fd program_data_ptr filesize 1 in
        if is_neg res
        then (res, record s { ram = m1; world = w1 })
        else if program_data_ptr == null
        then (neg32 enomem, record s { ram = m2; world = w1 })
        else if is_neg read
        then (neg32 eio, record s { ram = m3; world = w3 })
        else (let k = record (s.objects process) {
          physical_pointer = program_data_ptr;
          size = load32 m3 (stat + 28);
        } in
            (res, put (record s { ram = m3; world = w3 }) process k))

    unfoldable pub process_load_binary : ℕ → ℕ → System World → Option (ℕ × System World)
    process_load_binary filename process s =
        files.fopen s.ram s.world filename >>= λ (opened : ℕ × Ram × World).
        let s1 = record s { ram = opened.1; world = opened.2 } in
        some (if not (slt 0 opened.0) then (neg32 eio, s1) else load_opened opened.0 process s1)

    unfoldable pub process_load_data : ℕ → ℕ → System World → Option (ℕ × System World)
    process_load_data filename process s = process_load_binary filename process s

    -- The last step of process_load_for_slot.
    unfoldable pub load_map : ℕ → ℕ → System World → ℕ × System World
    load_map slot tmp_process s =
        let (res, s1) = process_map_virtual_memory tmp_process s in
        if is_neg res
        then finish_load heap res tmp_process s1
        else finish_load heap res tmp_process
            (record s1 { processes = set s1.processes slot tmp_process; process_out = tmp_process })

    -- The step before it, which creates the task.
    unfoldable pub load_task : ℕ → ℕ → System World → ℕ × System World
    load_task slot tmp_process s =
        let (task, m, t) = make_new_task s.ram heap tmp_process s.tasks in
        let s1 = record s { ram = m; tasks = t } in
        if is_err task
        then finish_load heap task tmp_process s1
        else load_map slot tmp_process
            (put s1 tmp_process (record (s1.objects tmp_process) { task = task }))

    -- The step before that, once the program is in memory.
    unfoldable pub load_stack : ℕ → ℕ → ℕ → System World → ℕ × System World
    load_stack filename slot tmp_process s =
        let (program_stack_ptr, m1) = kzalloc s.ram heap user_program_stack_size in
        let m2 = (strncpy m1 (tmp_process + binary_file_offset) filename binary_file_bytes).1 in
        if program_stack_ptr == null
        then finish_load heap (neg32 enomem) tmp_process (record s { ram = m1 })
        else load_task slot tmp_process (
            put (record s { ram = m2 }) tmp_process
              (record (s.objects tmp_process) { stack_pointer = program_stack_ptr; id = u16 slot }))

    unfoldable pub process_load_for_slot : ℕ → ℕ → System World → Option (ℕ × System World)
    process_load_for_slot filename slot s =
        let (tmp_process, m1) = kzalloc s.ram heap process_bytes in
        let s1 = record s { ram = m1 } in
        if not (get_process_by_id slot s == null)
        then some (finish_load heap (neg32 esrch) null s)
        else if tmp_process == null
        then some (finish_load heap (neg32 enomem) null s1)
        else process_load_data filename tmp_process (process_init tmp_process s1)
          >>= λ (loaded : ℕ × System World). some (
              if is_neg loaded.0
              then finish_load heap loaded.0 tmp_process loaded.1
              else load_stack filename slot tmp_process loaded.1)

    unfoldable pub load_process : ℕ → System World → Option (ℕ × System World)
    load_process filename s =
        let slot = process_get_free_slot s in
        if is_neg slot then some (slot, s) else process_load_for_slot filename slot s
