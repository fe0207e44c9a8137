-- ===== src/Core/Boot/Ready.antt =====
-- What stands when the parts of the kernel are started, for src/kernel/core/architecture.cc.
use larva_os.Base.{
  ℕ, ◌*◌, ◌^◌, ◌<◌, ◌≡◌, ◌+◌, ◌%◌, false, ◌==◌, if◌then◌else◌, Option, none, some, List, ◌∷◌, Ram,
  null, map, replicate, load32,
}
use larva_os.Gdt.Decode.{read_segment}
use larva_os.Interrupt.{
  divide_by_zero_interrupt_number, init_interrupt_descriptor_table, system_call_interrupt_number,
  total_interrupts,
}
use larva_os.Interrupt.Gates.{LeadsTo, gate}
use larva_os.Memory.Kheap.Laws.{kernel_heap}
use larva_os.Memory.Heap.{Heap}
use larva_os.Core.Memory.{initialize_kernel_heap}
use larva_os.Core.Boot.{Kernel, Symbols, structured_gdt}
use larva_os.Syscall.{Outcome, Syscalls, call}
use larva_os.Vfs.{Filesystem, Vfs, disk_init}

module _ {Called : Type 0} where
  -- The table after syscalls::initialize().
  abbrev zero_only : Syscalls Called
  zero_only = some (λ args w. (null, w)) ∷ replicate 99 none

module _ {World : Type 0} (methods : ℕ → Filesystem World) where
  -- disk_init, behind fs_init: it asks the file systems whose disk this is.
  abbrev pub asked_disk : (y : Symbols) → Ram → Vfs × World → Option (Ram × World)
  asked_disk y m w =
      let v = record w.0 {
        filesystems = y.fat16 ∷ replicate 11 null;
        file_descriptors = replicate 512 null;
      } in
      disk_init methods m w.1 v y.disk

module _ {World Called : Type 0} (methods : ℕ → Filesystem World) (y : Symbols) where
  -- The segments and the heap.
  record Segmented (k k' : Kernel World Called) : Type 0 where
    off : k'.interrupts ≡ false
    segments : map read_segment k'.gdt ≡ structured_gdt y.tss
    heap : k'.heap ≡ kernel_heap
    calls : k'.calls ≡ k.calls
    tasks : k'.system.tasks ≡ k.system.tasks
    ram : k'.system.ram ≡ (initialize_kernel_heap k.system.ram k.heap).1
    world : k'.system.world ≡ k.system.world

  -- The files, the interrupt table and the task register.
  record Filed (k k' : Kernel World Called) : Type 0 where
    off : k'.interrupts ≡ k.interrupts
    gdt : k'.gdt ≡ k.gdt
    heap : k'.heap ≡ k.heap
    calls : k'.calls ≡ k.calls
    tasks : k'.system.tasks ≡ k.system.tasks
    none_open : k'.system.world.0.file_descriptors ≡ replicate 512 null
    fat16_only : k'.system.world.0.filesystems ≡ y.fat16 ∷ replicate 11 null
    table :
        k'.idt ≡ init_interrupt_descriptor_table y.table y.no_interrupt y.divide y.syscall_wrapper
    register : k'.task_register ≡ 0x28

  -- The kernel's page tables and the table of system calls.
  record Paged (k k' : Kernel World Called) : Type 0 where
    off : k'.interrupts ≡ k.interrupts
    gdt : k'.gdt ≡ k.gdt
    heap : k'.heap ≡ k.heap
    idt : k'.idt ≡ k.idt
    register : k'.task_register ≡ k.task_register
    world : k'.system.world ≡ k.system.world
    on : k'.cr0 ≡ 2 ^ 31 + y.eax % 2 ^ 31
    installed : k'.system.tasks.directories.kernel_directory ≡ k'.kvm
    loaded : k'.system.tasks.directories.cr3 ≡ load32 k'.system.ram k'.kvm
    only_zero :
        (num : ℕ) (args : List ℕ) (w : Called)
        → num < 100
        → call k'.calls num args w ≡ Outcome.done (null, w)

  -- What the parts of the kernel promise once they are started.
  pub record Started (k : Kernel World Called) : Type 0 where
    pub off : k.interrupts ≡ false
    pub segments : map read_segment k.gdt ≡ structured_gdt y.tss
    pub register : k.task_register ≡ 5 * 8
    pub heap : k.heap ≡ kernel_heap
    pub none_open : k.system.world.0.file_descriptors ≡ replicate 512 null
    pub fat16_only : k.system.world.0.filesystems ≡ y.fat16 ∷ replicate 11 null
    pub gates :
        (v : ℕ)
        → v < total_interrupts
        → LeadsTo (gate k.idt.idt_descriptors v) (
            if v == system_call_interrupt_number
            then y.syscall_wrapper
            else if v == divide_by_zero_interrupt_number
            then y.divide
            else y.no_interrupt)
    pub paging : k.cr0 ≡ 2 ^ 31 + y.eax % 2 ^ 31
    pub installed : k.system.tasks.directories.kernel_directory ≡ k.kvm
    pub loaded : k.system.tasks.directories.cr3 ≡ load32 k.system.ram k.kvm
    pub only_zero :
        (num : ℕ) (args : List ℕ) (w : Called)
        → num < 100
        → call k.calls num args w ≡ Outcome.done (null, w)
