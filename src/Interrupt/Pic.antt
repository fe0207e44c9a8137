-- ===== src/Interrupt/Pic.antt =====
-- The interrupt controllers and the handlers of src/kernel/arch/x86/interrupt/interrupt.c. The
-- assembly functions that set and clear the processor's interrupt flag are `sti` and `cli`.
use larva_os.Base.{
  ℕ, ◌+◌, ◌*◌, ◌/◌, ◌<◌, ◌≡◌, ◌≢◌, refl, ap, ◌∙◌, arith, Bool, true, false, ==_false, [], ◌∷◌,
  subst,
}
use larva_os.Disk.{Ports}
use larva_os.Video.{Screen, write}
use larva_os.Interrupt.{
  init_interrupt_descriptor_table, system_call_interrupt_number, divide_by_zero_interrupt_number,
  total_interrupts,
}
use larva_os.Interrupt.Gates.{LeadsTo, gate, init_table_lem}

module _ {Drive : Type 0} (ports : Ports Drive) where
  -- Without its second argument, which no caller gives.
  unfoldable pub init_pic : Drive → Drive
  init_pic d0 =
      let d1 = ports.outb d0 0x20 0x11 in
      let d2 = ports.outb d1 0xa0 0x11 in
      let d3 = ports.outb d2 0x21 0x20 in
      let d4 = ports.outb d3 0xa1 0x70 in
      let d5 = ports.outb d4 0x21 0x04 in
      let d6 = ports.outb d5 0xa1 0x02 in
      let d7 = ports.outb d6 0x21 0x01 in
      let d8 = ports.outb d7 0xa1 0x01 in let d9 = ports.outb d8 0x21 0x0 in ports.outb d9 0xa1 0x0

  unfoldable pub no_interrupt_handler : Drive → Drive
  no_interrupt_handler d = ports.outb d 0x20 0x20

-- The first 14 bytes of "Divide by Zero.".
unfoldable pub idt_divide_by_zero : Screen → Screen
idt_divide_by_zero v = write v (
    b'D' ∷ b'i' ∷ b'v' ∷ b'i' ∷ b'd' ∷ b'e' ∷ b' ' ∷ b'b' ∷ b'y' ∷ b' ' ∷ b'Z' ∷ b'e' ∷ b'r' ∷ b'o'
    ∷ [])

-- The interrupt flag of the processor.
unfoldable pub enable_interrupt : Bool → Bool
enable_interrupt flag = true

unfoldable pub disable_interrupt : Bool → Bool
disable_interrupt flag = false

-- What a controller keeps: the vector of its first line, the word that tells where the other
-- controller stands, its mode, its mask, and the number of the initialisation word that it waits
-- for, 0 for none. Which interrupts are in service is left out.
pub record Controller : Type 0 where
  pub vector : ℕ
  pub cascade : ℕ
  pub mode : ℕ
  pub mask : ℕ
  pub waits_for : ℕ

-- The controller at `base` keeps to the data sheet of the 8259: a first word with the bits 4 and 0
-- set and bit 1 clear starts the initialisation, whose words 2 to 4 follow at the next port; then a
-- write there sets the mask.
pub record IsPic {Drive : Type 0} (ports : Ports Drive) (base : ℕ) : Type 0 where
  pub state : Drive → Controller
  pub first : (d : Drive) → (state (ports.outb d base 0x11)).waits_for ≡ 2
  pub second :
      (d : Drive) (v : ℕ)
      → (state d).waits_for ≡ 2
      → state (ports.outb d (base + 1) v) ≡ record (state d) { vector = v / 8 * 8; waits_for = 3 }
  pub third :
      (d : Drive) (v : ℕ)
      → (state d).waits_for ≡ 3
      → state (ports.outb d (base + 1) v) ≡ record (state d) { cascade = v; waits_for = 4 }
  pub fourth :
      (d : Drive) (v : ℕ)
      → (state d).waits_for ≡ 4
      → state (ports.outb d (base + 1) v) ≡ record (state d) { mode = v; waits_for = 0 }
  pub masks :
      (d : Drive) (v : ℕ)
      → (state d).waits_for ≡ 0
      → state (ports.outb d (base + 1) v) ≡ record (state d) { mask = v }
  pub others :
      (d : Drive) (port v : ℕ)
      → port ≢ base
      → port ≢ base + 1
      → state (ports.outb d port v) ≡ state d

-- A controller after its initialisation with no line masked.
abbrev pub set_up : ℕ → ℕ → Controller
set_up vector cascade = record {
  vector = vector;
  cascade = cascade;
  mode = 1;
  mask = 0;
  waits_for = 0;
}

module _ {Drive : Type 0} (ports : Ports Drive) (base : ℕ) (pic : IsPic ports base) where
  Quiet : (Drive → Drive) → Type 0
  Quiet n = (d : Drive) → pic.state (n d) ≡ pic.state d

  -- What is written to the other controller between two words does not matter.
  set_up_lem :
      (vector cascade : ℕ) (d : Drive) (n0 n1 n2 n3 n4 n5 : Drive → Drive)
      → vector / 8 * 8 ≡ vector
      → Quiet n0
      → Quiet n1
      → Quiet n2
      → Quiet n3
      → Quiet n4
      → Quiet n5
      → let d1 = n1 (ports.outb (n0 d) base 0x11) in
        let d2 = n2 (ports.outb d1 (base + 1) vector) in
        let d3 = n3 (ports.outb d2 (base + 1) cascade) in
        let d4 = n4 (ports.outb d3 (base + 1) 0x01) in
        pic.state (n5 (ports.outb d4 (base + 1) 0x0)) ≡ set_up vector cascade
  unfolding Quiet
  set_up_lem vector cascade d n0 n1 n2 n3 n4 n5 aligned q0 q1 q2 q3 q4 q5 =
      let d1 = n1 (ports.outb (n0 d) base 0x11) in
      let d2 = n2 (ports.outb d1 (base + 1) vector) in
      let d3 = n3 (ports.outb d2 (base + 1) cascade) in
      let d4 = n4 (ports.outb d3 (base + 1) 0x01) in
      let s1 =
        ap (λ (c : Controller). c.waits_for) (q1 (ports.outb (n0 d) base 0x11))
        ∙ pic.first (n0 d) in
      let s2 = q2 (ports.outb d1 (base + 1) vector) ∙ pic.second d1 vector s1 in
      let s3 = q3 (ports.outb d2 (base + 1) cascade) ∙ pic.third d2 cascade (rw s2 refl) in
      let s4 = q4 (ports.outb d3 (base + 1) 0x01) ∙ pic.fourth d3 0x01 (rw s3 refl) in
      q5 (ports.outb d4 (base + 1) 0x0)
      ∙ pic.masks d4 0x0 (rw s4 refl)
      ∙ rw (s4, s3, s2, aligned) refl

module _ {Drive : Type 0} (ports : Ports Drive) (master : IsPic ports 0x20)
    (slave : IsPic ports 0xa0) where
  master-init : (d : Drive) → master.state (init_pic ports d) ≡ set_up 0x20 0x04
  unfolding init_pic Quiet
  master-init d =
      set_up_lem ports 0x20 master 0x20 0x04 d (λ x. x) (λ x. ports.outb x 0xa0 0x11)
        (λ x. ports.outb x 0xa1 0x70) (λ x. ports.outb x 0xa1 0x02) (λ x. ports.outb x 0xa1 0x01)
        (λ x. ports.outb x 0xa1 0x0) refl (λ x. refl)
        (λ x. master.others x 0xa0 0x11 (omega arith) (omega arith))
        (λ x. master.others x 0xa1 0x70 (omega arith) (omega arith))
        (λ x. master.others x 0xa1 0x02 (omega arith) (omega arith))
        (λ x. master.others x 0xa1 0x01 (omega arith) (omega arith))
        (λ x. master.others x 0xa1 0x0 (omega arith) (omega arith))

  slave-init : (d : Drive) → slave.state (init_pic ports d) ≡ set_up 0x70 0x02
  unfolding init_pic Quiet
  slave-init d =
      set_up_lem ports 0xa0 slave 0x70 0x02 d (λ x. ports.outb x 0x20 0x11)
        (λ x. ports.outb x 0x21 0x20) (λ x. ports.outb x 0x21 0x04) (λ x. ports.outb x 0x21 0x01)
        (λ x. ports.outb x 0x21 0x0) (λ x. x) refl
        (λ x. slave.others x 0x20 0x11 (omega arith) (omega arith))
        (λ x. slave.others x 0x21 0x20 (omega arith) (omega arith))
        (λ x. slave.others x 0x21 0x04 (omega arith) (omega arith))
        (λ x. slave.others x 0x21 0x01 (omega arith) (omega arith))
        (λ x. slave.others x 0x21 0x0 (omega arith) (omega arith)) (λ x. refl)

  line_gate :
      (table no_interrupt divide syscall v : ℕ)
      → v < total_interrupts
      → v ≢ system_call_interrupt_number
      → v ≢ divide_by_zero_interrupt_number
      → LeadsTo
          (gate
            (init_interrupt_descriptor_table table no_interrupt divide syscall).idt_descriptors
            v)
          no_interrupt
  line_gate table no_interrupt divide syscall v low not_call not_divide =
      let (l, _, _) = init_table_lem table no_interrupt divide syscall v low in
      subst
        (λ a.
          LeadsTo
            (gate
              (init_interrupt_descriptor_table table no_interrupt divide syscall).idt_descriptors v)
            a)
        (rw (==_false _ _ not_call, ==_false _ _ not_divide) refl) l

  -- After init_pic the 8259 controllers have their lines 0 to 7 at the vectors 0x20 to 0x27 and
  -- 0x70 to 0x77, know each other by line 2, mask no line and wait for no further word, whatever
  -- they did before; and in the table that init_interrupt_descriptor_table makes, the gate of each
  -- of the 16 lines leads to the default handler. The ports 0x20, 0x21, 0xa0 and 0xa1 keep to the
  -- data sheet of the 8259.
  pub init_pic_lem :
      (d : Drive) (line table no_interrupt divide syscall : ℕ)
      → line < 8
      → let ds =
          (init_interrupt_descriptor_table table no_interrupt divide syscall).idt_descriptors in
        let d' = init_pic ports d in
        (master.state d' ≡ set_up 0x20 0x04)
        × (slave.state d' ≡ set_up 0x70 0x02)
        × LeadsTo (gate ds ((master.state d').vector + line)) no_interrupt
        × LeadsTo (gate ds ((slave.state d').vector + line)) no_interrupt
  init_pic_lem d line table no_interrupt divide syscall low = (
    master-init d,
    slave-init d,
    rw (master-init d) (
        line_gate table no_interrupt divide syscall (0x20 + line) (omega (arith, low))
          (omega (arith, low)) (omega (arith, low))),
    rw (slave-init d) (
        line_gate table no_interrupt divide syscall (0x70 + line) (omega (arith, low))
          (omega (arith, low)) (omega (arith, low))),
  )
