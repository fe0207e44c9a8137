-- ===== src/Interrupt.antt =====
-- The interrupt descriptor table, src/kernel/arch/x86/interrupt/interrupt.c.
pub mod Gates
pub mod Pic
mod Tests
use larva_os.Base.{
  ℕ, zero, suc, ◌+◌, ◌-◌, ◌*◌, ◌/◌, ◌%◌, ◌^◌, bit_and, u16, ◌>>>◌, List, [], ◌∷◌, set, replicate,
}

abbrev pub total_interrupts : ℕ
total_interrupts = 512

abbrev pub kernel_code_selector : ℕ
kernel_code_selector = 0x08

abbrev pub system_call_interrupt_number : ℕ
system_call_interrupt_number = 0x80

abbrev pub divide_by_zero_interrupt_number : ℕ
divide_by_zero_interrupt_number = 0x00

pub record IdtDesc : Type 0 where
  pub offset_1 : ℕ
  pub selector : ℕ
  pub zero : ℕ
  pub type_attributes : ℕ
  pub offset_2 : ℕ

pub record IdtrDesc : Type 0 where
  pub limit : ℕ
  pub base : ℕ

-- `idt_descriptors` and `idt_register`.
pub record IdtState : Type 0 where
  pub idt_descriptors : List IdtDesc
  pub idt_register : IdtrDesc

unfoldable pub set_interrupt_handler : List IdtDesc → ℕ → ℕ → List IdtDesc
set_interrupt_handler descriptors pos address = set descriptors pos (record {
  offset_1 = bit_and address 0x0000ffff;
  selector = kernel_code_selector;
  zero = 0x00;
  type_attributes = 0xee;
  offset_2 = address >>> 16;
})

-- `for (i = 0; i < TOTAL_INTERRUPTS; i++)` with `left` rounds to go.
unfoldable pub set_all : List IdtDesc → ℕ → ℕ → ℕ → List IdtDesc
set_all descriptors no_interrupt zero i = descriptors
set_all descriptors no_interrupt (suc left) i =
    set_all (set_interrupt_handler descriptors i no_interrupt) no_interrupt left (i + 1)

abbrev pub empty_desc : IdtDesc
empty_desc = record { offset_1 = 0; selector = 0; zero = 0; type_attributes = 0; offset_2 = 0 }

-- The arguments are the addresses of `idt_descriptors` and of the three handlers, which the linker
-- sets.
unfoldable pub init_interrupt_descriptor_table :
    (table no_interrupt idt_divide_by_zero syscall_wrapper : ℕ) → IdtState
init_interrupt_descriptor_table table no_interrupt idt_divide_by_zero syscall_wrapper =
    let size_of_descriptor_table = 8 * total_interrupts in
    let d1 = set_all (replicate total_interrupts empty_desc) no_interrupt total_interrupts 0 in
    let d2 = set_interrupt_handler d1 divide_by_zero_interrupt_number idt_divide_by_zero in
    let d3 = set_interrupt_handler d2 system_call_interrupt_number syscall_wrapper in
    record {
      idt_descriptors = d3;
      idt_register = record { limit = u16 (size_of_descriptor_table - 1); base = table };
    }
