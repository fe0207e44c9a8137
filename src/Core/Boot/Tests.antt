-- ===== src/Core/Boot/Tests.antt =====
-- The start of the kernel from the memory as the firmware leaves it, for
-- src/kernel/core/architecture.cc.
use larva_os.Base.{ℕ, ◌+◌, false, none, [], null, replicate, some}
use larva_os.Core.Boot.{Kernel, Symbols}
use larva_os.Core.Files.Tests.{counting, literals}
use larva_os.Memory.Kheap.Booted.{dirty}
use larva_os.Memory.Kheap.Laws.{kernel_heap}
use larva_os.Vfs.{Filesystem}
use larva_os.Process.{zero_process}
use larva_os.Task.{zero_task}

abbrev linked : Symbols
linked = record {
  tss = 0x110000;
  table = 0x111000;
  no_interrupt = 0x100100;
  divide = 0x100200;
  syscall_wrapper = 0x100300;
  disk = 0x112000;
  fat16 = 0x113000;
  loop_bin = 0x150;
  literals = literals;
  eax = 0x1000000;
}

-- The static variables are 0.
abbrev off : Kernel ℕ ℕ
off = record {
  interrupts = false;
  gdt = [];
  heap = kernel_heap;
  idt = record { idt_descriptors = []; idt_register = record { limit = 0; base = 0 } };
  task_register = 0;
  kvm = null;
  cr0 = 0x11;
  calls = replicate 100 none;
  current_proc_id = 0;
  system = record {
    ram = dirty;
    world = (
      record {
        filesystems = replicate 12 null;
        file_descriptors = replicate 512 null;
        descriptors = λ q. record { index = 0; fs = 0; disk = 0; p = 0 };
      },
      0,
    );
    tasks = record {
      objects = λ q. zero_task;
      current_task = null;
      tail_task = null;
      head_task = null;
      directories = record { kernel_directory = null; current_directory = null; cr3 = 0 };
    };
    current_process = null;
    processes = replicate 20 null;
    process_out = null;
    objects = λ q. zero_process;
  };
}

-- A file system that takes every disk for its own.
abbrev takes_any : ℕ → Filesystem ℕ
takes_any fs = record (counting fs) { resolve = some (λ m w disk. some (0, m, w + 1)) }
