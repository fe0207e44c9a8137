-- ===== src/Core/Memory/Mapped.antt =====
-- The kernel's address space after vm::initialize of src/kernel/core/memory.cc.
use larva_os.Base.{
  ℕ, ◌+◌, ◌≤◌, ◌<◌, ◌≡◌, refl, arith, zero, suc, ◌%◌, ◌/◌, ◌^◌, bit_or, Ram, load32,
}
use larva_os.Base.Bits.{or_split, or-zero}
use larva_os.Core.Memory.{Vm, enable_paging}
use larva_os.Memory.Kheap.Packed.{Packed, block}
use larva_os.Memory.Paging.Entries.{IsDirectory}
use larva_os.Memory.Paging.Identity.{MapsItself}

-- Present, for reading and writing, by the kernel and by programs.
abbrev all_flags : ℕ
all_flags = 7

-- All bits of CR0 are those of eax, but for the paging bit, which is set.
pub enable_paging_lem : (eax : ℕ) → eax < 2 ^ 32 → enable_paging eax ≡ 2 ^ 31 + eax % 2 ^ 31
unfolding enable_paging
enable_paging_lem eax h = ground (
  arith,
  or_split 31 eax 0x80000000,
  or-zero (eax % 2 ^ 31),
  top_bit (eax / 2 ^ 31) (omega (arith, h)),
)
  where
    top_bit : (q : ℕ) → q < 2 → bit_or q 1 ≡ 1
    top_bit zero h = refl
    top_bit (suc zero) h = refl
    top_bit (suc (suc q)) h = absurd (omega (arith, h))

-- What vm::initialize promises when it takes the blocks from `b` on.
pub record Mapped (m : Ram) (b eax : ℕ) (r : Ram × Vm) : Type 0 where
  pub written : r.1.cr0 ≡ 2 ^ 31 + eax % 2 ^ 31
  pub unprotected : eax ≡ r.1.directories.cr3 → r.1.cr0 % 2 ≡ 0
  pub space : r.1.kvm ≡ block (b + 1025)
  pub installed : r.1.directories.kernel_directory ≡ r.1.kvm
  pub loaded : r.1.directories.cr3 ≡ load32 r.0 r.1.kvm
  pub current : r.1.directories.current_directory ≡ r.1.directories.cr3
  pub directory : IsDirectory r.0 r.1.kvm
  pub identity : MapsItself 7 7 (omega arith) refl (omega arith) r.0 r.1.kvm
  pub packed : Packed r.0 (b + 1026)
  pub kept : (q : ℕ) → 0xe200 ≤ q → q < block b → r.0 q ≡ m q
