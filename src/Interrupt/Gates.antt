-- ===== src/Interrupt/Gates.antt =====
-- Where the processor finds each handler, for src/kernel/arch/x86/interrupt/interrupt.c.
use larva_os.Base.{
  ℕ, zero, suc, ◌+◌, ◌*◌, ◌^◌, ◌≤◌, ◌<◌, ◌≡◌, refl, inl, inr, arith, ◌==◌, if◌then◌else◌, List,
  get_or, length, replicate, length-set, length-replicate, get_or-set_self, get_or-set_ne,
  Bool-cases, ==_iff, leb, ltb, ◌&&◌, ◌∙◌, ltb-true, true, bit_and, ◌>>>◌,
}
use larva_os.Base.Bits.{and_mask}
use larva_os.Interrupt.{
  IdtDesc, set_interrupt_handler, set_all, init_interrupt_descriptor_table, total_interrupts,
  empty_desc, kernel_code_selector, system_call_interrupt_number, divide_by_zero_interrupt_number,
}

-- Gate `v` of a table, as the processor reads it.
abbrev pub gate : List IdtDesc → ℕ → IdtDesc
gate ds v = get_or ds v empty_desc

abbrev pub handler : IdtDesc → ℕ
handler d = d.offset_2 * 2 ^ 16 + d.offset_1

-- A present 32-bit interrupt gate in the kernel's code segment, open to user programs, that
-- leads to `address`.
pub record LeadsTo (d : IdtDesc) (address : ℕ) : Type 0 where
  pub offset : handler d ≡ address
  pub selector : d.selector ≡ kernel_code_selector
  pub attributes : d.type_attributes ≡ 0xee
  pub reserved : d.zero ≡ 0

abbrev gate_to : ℕ → IdtDesc
gate_to address = record {
  offset_1 = bit_and address 0x0000ffff;
  selector = kernel_code_selector;
  zero = 0x00;
  type_attributes = 0xee;
  offset_2 = address >>> 16;
}

gate_to-LeadsTo : (address : ℕ) → LeadsTo (gate_to address) address
gate_to-LeadsTo address = record {
  offset = omega (arith, and_mask 16 address);
  selector = refl;
  attributes = refl;
  reserved = refl;
}

gate-set_handler :
    (ds : List IdtDesc) (pos address v : ℕ)
    → pos < length ds
    → gate (set_interrupt_handler ds pos address) v
      ≡ (if v == pos then gate_to address else gate ds v)
unfolding set_interrupt_handler
gate-set_handler ds pos address v h = elim (Bool-cases (v == pos)) [
  | inl e ↦ rw (e, (==_iff v pos).0 e) (get_or-set_self ds pos (gate_to address) empty_desc h)
  | inr e ↦ rw e (get_or-set_ne ds pos v (gate_to address) empty_desc (ground arith))
]

length-set_handler :
    (ds : List IdtDesc) (pos address : ℕ)
    → length (set_interrupt_handler ds pos address) ≡ length ds
unfolding set_interrupt_handler
length-set_handler ds pos address = length-set ds pos (gate_to address)

length-set_all : (ds : List IdtDesc) (n left i : ℕ) → length (set_all ds n left i) ≡ length ds
unfolding set_all
length-set_all ds n zero i = refl
length-set_all ds n (suc left) i =
    length-set_all (set_interrupt_handler ds i n) n left (i + 1) ∙ length-set_handler ds i n

gate-set_all :
    (left i n v : ℕ) (ds : List IdtDesc)
    → i + left ≤ length ds
    → gate (set_all ds n left i) v ≡ (if leb i v && ltb v (i + left) then gate_to n else gate ds v)
unfolding set_all
gate-set_all zero i n v ds h = ground arith
gate-set_all (suc left) i n v ds h =
    gate-set_all left (i + 1) n v (set_interrupt_handler ds i n)
      (omega (arith, length-set_handler ds i n))
    ∙ ground (arith, gate-set_handler ds i n v)

leb_zero : (v : ℕ) → leb 0 v ≡ true
leb_zero v = ground arith

-- The two gates that are set apart.
LeadsTo-set_two :
    (ds : List IdtDesc) (n divide syscall v : ℕ)
    → length ds ≡ total_interrupts
    → gate ds v ≡ gate_to n
    → LeadsTo
        (gate
          (set_interrupt_handler
            (set_interrupt_handler ds divide_by_zero_interrupt_number divide)
            system_call_interrupt_number
            syscall)
          v)
        (if v == system_call_interrupt_number
          then syscall
          else if v == divide_by_zero_interrupt_number
          then divide
          else n)
LeadsTo-set_two ds n divide syscall v len before =
    let d1 = set_interrupt_handler ds divide_by_zero_interrupt_number divide in
    rw
      (
        gate-set_handler d1 system_call_interrupt_number syscall v
            (omega (arith, length-set_handler ds divide_by_zero_interrupt_number divide)),
        gate-set_handler ds divide_by_zero_interrupt_number divide v (omega arith),
        before,
      )
      (elim (Bool-cases (v == system_call_interrupt_number)) [
        | inl e ↦ rw e (gate_to-LeadsTo syscall)
        | inr e ↦ rw e (elim (Bool-cases (v == divide_by_zero_interrupt_number)) [
          | inl f ↦ rw f (gate_to-LeadsTo divide)
          | inr f ↦ rw f (gate_to-LeadsTo n)
        ])
      ])

-- After initialisation each of the 512 gates leads to its handler: gate 0 to the one for a division
-- by zero, gate 0x80 to the system call wrapper, and every other gate to the default handler; and
-- the register covers exactly the table.
pub init_table_lem :
    (table no_interrupt divide syscall v : ℕ)
    → v < total_interrupts
    → let s = init_interrupt_descriptor_table table no_interrupt divide syscall in
      LeadsTo (gate s.idt_descriptors v) (
        if v == system_call_interrupt_number
        then syscall
        else if v == divide_by_zero_interrupt_number
        then divide
        else no_interrupt)
      × (s.idt_register.base ≡ table)
      × (s.idt_register.limit + 1 ≡ 8 * length s.idt_descriptors)
unfolding init_interrupt_descriptor_table
init_table_lem table no_interrupt divide syscall v h = (
  LeadsTo-set_two d1 no_interrupt divide syscall v d1_length d1_gate,
  refl,
  omega (
    arith,
    d1_length,
    length-set_handler d1 divide_by_zero_interrupt_number divide,
    length-set_handler (set_interrupt_handler d1 divide_by_zero_interrupt_number divide)
        system_call_interrupt_number syscall,
  ),
)
  where
    d1 : List IdtDesc
    d1 = set_all (replicate total_interrupts empty_desc) no_interrupt total_interrupts 0

    blank : length (replicate total_interrupts empty_desc) ≡ total_interrupts
    blank = length-replicate total_interrupts empty_desc

    d1_length : length d1 ≡ total_interrupts
    d1_length =
        length-set_all (replicate total_interrupts empty_desc) no_interrupt total_interrupts 0
        ∙ blank

    d1_gate : gate d1 v ≡ gate_to no_interrupt
    d1_gate =
        gate-set_all total_interrupts 0 no_interrupt v (replicate total_interrupts empty_desc)
          (omega (arith, blank))
        ∙ in_range
      where
        in_range :
            (if leb 0 v && ltb v (0 + total_interrupts)
              then gate_to no_interrupt
              else gate (replicate total_interrupts empty_desc) v)
            ≡ gate_to no_interrupt
        in_range = rw (ltb-true v total_interrupts h, leb_zero v)
