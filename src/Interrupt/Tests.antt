-- ===== src/Interrupt/Tests.antt =====
-- The interrupt table at concrete addresses.
use larva_os.Base.{
  ℕ, Bool, true, false, ◌+◌, ◌*◌, ◌/◌, ◌≡◌, refl, arith, [], ◌∷◌, replicate, if◌then◌else◌, ◌==◌,
  ==_false,
}
use larva_os.Disk.{Ports}
use larva_os.Interrupt.{set_interrupt_handler, init_interrupt_descriptor_table, empty_desc}
use larva_os.Interrupt.Gates.{LeadsTo, gate}
use larva_os.Interrupt.Pic.{Controller, IsPic, init_pic, init_pic_lem, set_up}

system_call_gate :
    set_interrupt_handler (replicate 2 empty_desc) 1 0x0010abcd
    ≡ empty_desc
      ∷ record {
        offset_1 = 0xabcd;
        selector = 8;
        zero = 0;
        type_attributes = 0xee;
        offset_2 = 0x10;
      }
      ∷ []
unfolding set_interrupt_handler
system_call_gate = refl

-- What an 8259 does on a write to its first and to its second port.
abbrev command_word : Controller → ℕ → Controller
command_word c v = if v == 0x11 then record c { mode = 0; mask = 0; waits_for = 2 } else c

abbrev data_word : Controller → ℕ → Controller
data_word c v =
    if c.waits_for == 2
    then record c { vector = v / 8 * 8; waits_for = 3 }
    else if c.waits_for == 3
    then record c { cascade = v; waits_for = 4 }
    else if c.waits_for == 4
    then record c { mode = v; waits_for = 0 }
    else record c { mask = v }

abbrev pics : Ports (Controller × Controller)
pics = record {
  outb = λ (c : Controller × Controller) port v.
      if port == 0x20
      then (command_word c.0 v, c.1)
      else if port == 0x21
      then (data_word c.0 v, c.1)
      else if port == 0xa0
      then (c.0, command_word c.1 v)
      else if port == 0xa1
      then (c.0, data_word c.1 v)
      else c;
  inb = λ c port. (0, c);
  inw = λ c port. (0, c);
}

first_kept :
    (x y : Bool) (c d e : Controller × Controller)
    → d.0 ≡ c.0
    → e.0 ≡ c.0
    → (if x then d else if y then e else c).0 ≡ c.0
first_kept true y c d e f g = f
first_kept false true c d e f g = g
first_kept false false c d e f g = refl

second_kept :
    (x y : Bool) (c d e : Controller × Controller)
    → d.1 ≡ c.1
    → e.1 ≡ c.1
    → (if x then d else if y then e else c).1 ≡ c.1
second_kept true y c d e f g = f
second_kept false true c d e f g = g
second_kept false false c d e f g = refl

abbrev pics-IsPic_first : IsPic pics 0x20
pics-IsPic_first = record {
  state = λ c. c.0;
  first = λ c. refl;
  second = λ c v h. rw h refl;
  third = λ c v h. rw h refl;
  fourth = λ c v h. rw h refl;
  masks = λ c v h. rw h refl;
  others = λ c port v a b.
      rw (==_false _ _ a, ==_false _ _ b)
        (first_kept (port == 0xa0) (port == 0xa1) c (c.0, command_word c.1 v) (c.0, data_word c.1 v)
          refl refl);
}

abbrev pics-IsPic_second : IsPic pics 0xa0
pics-IsPic_second = record {
  state = λ c. c.1;
  first = λ c. refl;
  second = λ c v h. rw h refl;
  third = λ c v h. rw h refl;
  fourth = λ c v h. rw h refl;
  masks = λ c v h. rw h refl;
  others = λ c port v a b.
      rw (==_false _ _ a, ==_false _ _ b)
        (second_kept (port == 0x20) (port == 0x21) c (command_word c.0 v, c.1)
          (data_word c.0 v, c.1) refl refl);
}

-- The keyboard's line 1, from controllers as the firmware leaves them.
init_pic_lem_example :
    let ds = (init_interrupt_descriptor_table 0x5000 0x100100 0x100200 0x100300).idt_descriptors in
    let d' = init_pic pics (set_up 0x08 0x04, set_up 0x70 0x02) in
    (pics-IsPic_first.state d' ≡ set_up 0x20 0x04)
    × (pics-IsPic_second.state d' ≡ set_up 0x70 0x02)
    × LeadsTo (gate ds ((pics-IsPic_first.state d').vector + 1)) 0x100100
    × LeadsTo (gate ds ((pics-IsPic_second.state d').vector + 1)) 0x100100
init_pic_lem_example =
    init_pic_lem pics pics-IsPic_first pics-IsPic_second (set_up 0x08 0x04, set_up 0x70 0x02) 1
      0x5000 0x100100 0x100200 0x100300 (omega arith)
