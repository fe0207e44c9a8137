-- ===== src/Process/Tests.antt =====
-- A process is loaded from a file of file.c, for src/kernel/arch/x86/task/process.c.
use larva_os.Base.{
  ℕ, ◌+◌, ◌-◌, ◌≡◌, refl, some, null, length, length-replicate, replicate, store32, Ram, get_or, [],
  ◌∷◌, none, ◌++◌,
}
use larva_os.Path.{
  path_parse, path_format_is_valid, parse_parts, parse_rest, parse_one_path_part,
  get_and_remove_prefix_path,
}
use larva_os.Libc.Strings.{strlen, strnlen_loop, strnlen, strchr, strncmp, memcmp}
use larva_os.Libc.Memory.{memset, memset_loop, memcpy}
use larva_os.Memory.Kheap.{kmalloc}
use larva_os.Memory.Heap.{
  align_value_to_upper, heap_get_entry_type, block_entry_is_free,
  get_physical_address_from_block_number, take_rest, mark_blocks_taken, scan, get_free_blocks,
  malloc_blocks, malloc,
}
use larva_os.Vfs.{fopen}
use larva_os.Memory.Heap.{Heap}
use larva_os.Memory.Kheap.{kzalloc}
use larva_os.Process.{FileCalls, System, load_process, max_processes, zero_process}
use larva_os.Process.Files.{vfs_files}
use larva_os.Process.Slots.{Ends, LoadsFirst, load_process_lem}
use larva_os.Task.{Tasks, zero_task}
use larva_os.Vfs.{Filesystem, Vfs}

-- The path `/a` at 0x100000, the literals behind it, and at 0x100010 a disk with the file system at
-- 0x50.
abbrev named : Ram
named q =
    get_or
      ((b'/' ∷ b'a' ∷ 0 ∷ b'/' ∷ 0 ∷ b'r' ∷ 0 ∷ b'w' ∷ 0 ∷ b'a' ∷ [])
        ++ (replicate 18 0 ++ (0x50 ∷ [])))
      (q - 0x100000) 0

abbrev roomy : Heap
roomy = record { table = record { entries = 0x200000; total = 2048 }; start_address = 0x1000000 }

-- Every file has 100 bytes, and the calls succeed.
abbrev hundred : ℕ → Filesystem ℕ
hundred fs = record {
  resolve = none;
  open_file = λ m w disk path mode. (0x7000, m, w + 1);
  read = λ m w disk p size nmemb out. (nmemb, m, w + 1);
  seek = λ m w p offset mode. (0, m, w + 1);
  stat = λ m w disk p stat. (0, store32 m (stat + 28) 100, w + 1);
  close = λ m w p. (0, m, w + 1);
}

abbrev files : FileCalls (Vfs × ℕ)
files = vfs_files hundred roomy 0x100010 (0x100003, 0x100005, 0x100007, 0x100009) 4 0x100005

abbrev no_tasks : Tasks
no_tasks = record {
  objects = λ q. zero_task;
  current_task = 0;
  tail_task = 0;
  head_task = 0;
  directories = record { kernel_directory = 0; current_directory = 0; cr3 = 0 };
}

start : System (Vfs × ℕ)
start = record {
  ram = named;
  world = (
    record {
      filesystems = 0x50 ∷ replicate 11 null;
      file_descriptors = replicate 512 null;
      descriptors = λ q. record { index = 0; fs = 0; disk = 0; p = 0 };
    },
    0,
  );
  tasks = no_tasks;
  current_process = 0;
  processes = replicate max_processes null;
  process_out = null;
  objects = λ q. zero_process;
}

start_count : length start.processes ≡ max_processes
unfolding start
start_count = length-replicate max_processes null

opens : Ends files roomy 0x9000 0x100000 start
unfolding start fopen path_parse path_format_is_valid parse_parts parse_rest parse_one_path_part
    get_and_remove_prefix_path strlen strnlen_loop strnlen strchr strncmp memcmp memset_loop memset
    memcpy align_value_to_upper heap_get_entry_type block_entry_is_free
    get_physical_address_from_block_number take_rest mark_blocks_taken scan get_free_blocks
    malloc_blocks malloc kmalloc kzalloc store32
opens present = (_, refl)

load_process_lem_example :
    (out : ℕ × System (Vfs × ℕ)) × (load_process files roomy 0x9000 0x100000 start ≡ some out)
    × LoadsFirst files roomy 0x9000 start out
load_process_lem_example = load_process_lem files roomy 0x9000 0x100000 start opens start_count
