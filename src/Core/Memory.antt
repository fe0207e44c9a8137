-- ===== src/Core/Memory.antt =====
-- The operators new and delete and the class vm of src/kernel/core/memory.cc. An argument tells
-- which heap the operators use.
pub mod Mapped
mod Tests
use larva_os.Base.{ℕ, bit_or, Ram}
use larva_os.Memory.Heap.{Heap}
use larva_os.Memory.Kheap.{kheap_init, kmalloc, kfree}
use larva_os.Memory.Paging.{
  Directories, is_writeable, make_new_4GB_virtual_memory_address_space, paging_install_kernel_page,
  switch_to_kernel_page, switch_to_page,
}

unfoldable pub operator_new : Ram → Heap → ℕ → ℕ × Ram
operator_new m heap size = kmalloc m heap size

unfoldable pub operator_new_array : Ram → Heap → ℕ → ℕ × Ram
unfolding operator_new
operator_new_array m heap size = operator_new m heap size

unfoldable pub operator_delete : Ram → Heap → ℕ → Ram
operator_delete m heap ptr = kfree m heap ptr

unfoldable pub operator_delete_array : Ram → Heap → ℕ → Ram
unfolding operator_delete
operator_delete_array m heap ptr = operator_delete m heap ptr

-- kernel_heap::initialize_kernel_heap(): the heap and the memory.
abbrev pub initialize_kernel_heap : Ram → Heap → Heap × Ram
initialize_kernel_heap m before = (let (res, heap, m1) = kheap_init m before in (heap, m1))

abbrev pub is_present : ℕ
is_present = 0b00000001

abbrev pub access_from_all : ℕ
access_from_all = 0b00000100

-- `_kvm`, the static variables of paging.c, and the register CR0 of the processor.
pub record Vm : Type 0 where
  pub kvm : ℕ
  pub directories : Directories
  pub cr0 : ℕ

-- vm::switch_to_vm and vm::switch_to_kvm.
unfoldable pub switch_to_vm : Ram → ℕ → Vm → Vm
unfolding switch_to_page
switch_to_vm m other v = record v { directories = switch_to_page m other v.directories }

unfoldable pub switch_to_kvm : Ram → Vm → Vm
unfolding switch_to_kernel_page
switch_to_kvm m v = record v { directories = switch_to_kernel_page m v.directories }

-- enable_paging of enable_paging.asm: what it writes to CR0. It does not read the register, but
-- goes on with what its caller has left in eax.
unfoldable pub enable_paging : ℕ → ℕ
enable_paging eax = bit_or eax 0x80000000

-- vm::initialize(). `eax` is what that register holds when enable_paging is called.
unfoldable pub vm_initialize : Ram → Heap → ℕ → Vm → Ram × Vm
unfolding enable_paging
vm_initialize m heap eax v =
    let flags = bit_or (bit_or is_writeable is_present) access_from_all in
    let (kvm, m1) = make_new_4GB_virtual_memory_address_space m heap flags in
    let v1 = record v { kvm = kvm; directories = paging_install_kernel_page kvm v.directories } in
    let v2 = switch_to_kvm m1 v1 in (m1, record v2 { cr0 = enable_paging eax })
