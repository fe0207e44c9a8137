-- ===== src/Core/Memory/Tests.antt =====
-- vm::initialize on an empty heap, for src/kernel/core/memory.cc.
use larva_os.Base.{null}
use larva_os.Core.Memory.{Vm}
use larva_os.Core.Memory.Mapped.{Mapped}
use larva_os.Memory.Kheap.Packed.{Packed}

abbrev no_vm : Vm
no_vm = record {
  kvm = null;
  directories = record { kernel_directory = null; current_directory = null; cr3 = 0 };
  cr0 = 0x11;
}
