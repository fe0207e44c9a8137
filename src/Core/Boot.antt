-- ===== src/Core/Boot.antt =====
-- The start of the kernel in src/kernel/core/architecture.cc, with the parts of process.cc and
-- interrupt.cc of that directory that it calls. The registers that assembly loads are fields of the
-- state. What is printed is left out.
pub mod Ready
mod Tests
use larva_os.Base.{ℕ, ◌+◌, Bool, false, Option, none, some, ◌>>=◌, List, [], ◌∷◌, Ram, store32}
use larva_os.Fat16.Words.{store16}
use larva_os.Libc.Memory.{memset}
use larva_os.Gdt.{SegmentDescriptor, StructuredSegmentDescriptor, extract_structured_gdt}
use larva_os.Interrupt.{IdtState, init_interrupt_descriptor_table}
use larva_os.Interrupt.Pic.{disable_interrupt}
use larva_os.Memory.Heap.{Heap}
use larva_os.Core.Files.{Files, Literals, vfs_initialize}
use larva_os.Core.Memory.{Vm, initialize_kernel_heap, vm_initialize}
use larva_os.Process.{FileCalls, System, load_process}
use larva_os.Syscall.{Outcome, Syscalls, initialize}
use larva_os.Vfs.{Filesystem, Vfs}

abbrev pub kernel_data_selector : ℕ
kernel_data_selector = 0x10

abbrev pub task_state_selector : ℕ
task_state_selector = 0x28

-- sizeof(task_state_segment).
abbrev pub task_state_bytes : ℕ
task_state_bytes = 104

-- What the linker, the compiler and the firmware fix: the addresses of the task state segment, of
-- the interrupt table, of the three handlers, of the disk, of the file system that fat16_init
-- returns, and the literals, and what the register eax holds when enable_paging is called.
pub record Symbols : Type 0 where
  pub tss : ℕ
  pub table : ℕ
  pub no_interrupt : ℕ
  pub divide : ℕ
  pub syscall_wrapper : ℕ
  pub disk : ℕ
  pub fat16 : ℕ
  pub loop_bin : ℕ
  pub literals : Literals
  pub eax : ℕ

-- The state of the kernel's parts, and the interrupt flag, the task register and CR0 of the
-- processor. A system call acts on `Called`.
pub record Kernel (World Called : Type 0) : Type 0 where
  pub interrupts : Bool
  pub gdt : List SegmentDescriptor
  pub heap : Heap
  pub idt : IdtState
  pub task_register : ℕ
  pub kvm : ℕ
  pub cr0 : ℕ
  pub calls : Syscalls Called
  pub current_proc_id : ℕ
  pub system : System (Vfs × World)

-- The table of arch::global_descriptor_table.
abbrev pub structured_gdt : ℕ → List StructuredSegmentDescriptor
structured_gdt tss =
    record { base = 0x00; limit = 0x00; type = 0x00 }
    ∷ record { base = 0x00; limit = 0xffffffff; type = 0x9a }
    ∷ record { base = 0x00; limit = 0xffffffff; type = 0x92 }
    ∷ record { base = 0x00; limit = 0xffffffff; type = 0xf8 }
    ∷ record { base = 0x00; limit = 0xffffffff; type = 0xf2 }
    ∷ record { base = tss; limit = task_state_bytes; type = 0xe9 }
    ∷ []

-- proc::__initialize_task_state_segment(), but for the task register.
unfoldable pub initialize_task_state_segment : Ram → ℕ → Ram
initialize_task_state_segment m tss =
    let m1 = memset m tss 0x00 task_state_bytes in
    let m2 = store32 m1 (tss + 4) 0x600000 in store16 m2 (tss + 8) kernel_data_selector

-- A panic and an access out of bounds both stop the start.
abbrev pub if_done : {A : Type 0} → Outcome A → Option A
if_done (Outcome.done a) = some a
if_done Outcome.panics = none
if_done Outcome.outside = none

module _ {World Called : Type 0} (methods : ℕ → Filesystem World) (y : Symbols) where
  -- arch::initialize(): the first three lines.
  unfoldable pub start_gdt : Kernel World Called → Option (Kernel World Called)
  unfolding disable_interrupt
  start_gdt k =
      let k1 = record k { interrupts = disable_interrupt k.interrupts } in
      extract_structured_gdt (structured_gdt y.tss) >>= λ (ds : List SegmentDescriptor).
      let (heap, m) = initialize_kernel_heap k1.system.ram k1.heap in
      some (record k1 { gdt = ds; heap = heap; system = record k1.system { ram = m } })

  -- vfs::initialize(), interrupt::initialize() and proc::initialize().
  unfoldable pub start_files : Kernel World Called → Option (Kernel World Called)
  unfolding initialize_task_state_segment
  start_files k =
      let before : Files World = record {
        ram = k.system.ram;
        vfs = k.system.world.0;
        world = k.system.world.1;
      } in
      vfs_initialize methods y.literals y.disk before y.fat16 >>= λ (s : Files World).
      let idt = init_interrupt_descriptor_table y.table y.no_interrupt y.divide y.syscall_wrapper in
      let m = initialize_task_state_segment s.ram y.tss in
      some (record k {
        idt = idt;
        task_register = task_state_selector;
        system = record k.system { ram = m; world = (s.vfs, s.world) };
      })

  -- vm::initialize() and syscalls::initialize().
  unfoldable pub start_paging : Kernel World Called → Option (Kernel World Called)
  start_paging k =
      let tasks = k.system.tasks in
      let vm : Vm = record { kvm = k.kvm; directories = tasks.directories; cr0 = k.cr0 } in
      let (m, vm') = vm_initialize k.system.ram k.heap y.eax vm in
      if_done (initialize k.calls) >>= λ (calls : Syscalls Called). some (record k {
        kvm = vm'.kvm;
        cr0 = vm'.cr0;
        calls = calls;
        system = record k.system {
          ram = m;
          tasks = record tasks { directories = vm'.directories };
        };
      })

  -- All that arch::initialize() does before it loads the first process.
  unfoldable pub start_parts : Kernel World Called → Option (Kernel World Called)
  unfolding start_gdt start_files start_paging
  start_parts k = start_gdt k >>= λ (k1 : Kernel World Called).
      start_files k1 >>= λ (k2 : Kernel World Called). start_paging k2

  module _ (files : FileCalls (Vfs × World)) (stat : ℕ) where
    -- proc::load_proc. What the result of load_process is, is kept as the number of the process;
    -- `process_out` is `_current_proc`.
    unfoldable pub load_proc : Kernel World Called → ℕ → Option (Kernel World Called)
    load_proc k filename =
        load_process files k.heap stat filename k.system >>= λ (out : ℕ × System (Vfs × World)).
        some (record k { current_proc_id = out.0; system = out.1 })

    unfoldable pub arch_initialize : Kernel World Called → Option (Kernel World Called)
    unfolding start_parts load_proc
    arch_initialize k = start_parts k >>= λ (k1 : Kernel World Called). load_proc k1 y.loop_bin
