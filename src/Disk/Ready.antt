-- ===== src/Disk/Ready.antt =====
-- A drive that is always ready, to run src/kernel/arch/x86/disk/disk.c and stream.c on.
use larva_os.Base.{
  ℕ, ◌+◌, ◌*◌, ◌/◌, ◌%◌, ◌^◌, ◌<◌, ◌≡◌, refl, arith, inl, if◌then◌else◌, ◌==◌, ==_iff, bit_or, u8,
  Bool, true,
}
use larva_os.Base.Bits.{and_mask, passes, passes_at}
use larva_os.Disk.{Ports, command}
use larva_os.Disk.Drives.{IsAta}

-- The registers for the sector's number and the byte that the next word comes from.
pub record Registers : Type 0 where
  pub head : ℕ
  pub low : ℕ
  pub middle : ℕ
  pub high : ℕ
  pub next : ℕ

abbrev pub image : ℕ → ℕ
image a = a % 251

abbrev pub ready_ports : Ports Registers
ready_ports = record {
  outb = λ r port v.
      if port == 0x1f6
      then record r { head = v % 16 }
      else if port == 0x1f3
      then record r { low = v }
      else if port == 0x1f4
      then record r { middle = v }
      else if port == 0x1f5
      then record r { high = v }
      else if port == 0x1f7
      then record r { next = (r.head * 2 ^ 24 + r.high * 2 ^ 16 + r.middle * 2 ^ 8 + r.low) * 512 }
      else r;
  inb = λ r port. (0x58, r);
  inw = λ r port. (image r.next + 2 ^ 8 * image (r.next + 1), record r { next = r.next + 2 });
}

head_test : ℕ → Bool
head_test v = u8 (bit_or v 0b11100000) % 16 == v

head_all : passes head_test 16 ≡ true
unfolding passes head_test
head_all = refl

head-kept : (v : ℕ) → v < 16 → u8 (bit_or v 0b11100000) % 16 ≡ v
unfolding head_test
head-kept v h = (==_iff _ _).0 (passes_at head_test 16 v h head_all)

pub ready-IsAta : IsAta ready_ports 0 image
unfolding command
ready-IsAta = record {
  Waits = λ n a r. r.next ≡ a;
  Sends = λ n a r. r.next ≡ a;
  accepts =
      λ r lba h. omega (arith, head-kept (lba / 2 ^ 24 % 2 ^ 8) (omega arith), and_mask 8 lba);
  answers = λ n a r w. inl (omega arith, w);
  gives = λ n a r s. (rw s refl, omega (arith, s));
  bytes = λ a. omega arith;
}

abbrev pub at_rest : Registers
at_rest = record { head = 0; low = 0; middle = 0; high = 0; next = 0 }
