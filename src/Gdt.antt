-- ===== src/Gdt.antt =====
-- Segment descriptors, src/kernel/arch/x86/gdt_runtime/gdt.c.
pub mod Decode
mod Tests
use larva_os.Base.{
  ℕ, zero, suc, ◌+◌, ◌-◌, ◌*◌, ◌/◌, ◌%◌, ◌^◌, Bool, true, false, ◌&&◌, not, bit_and, bit_or, u8,
  ltb, ◌==◌, ◌>>>◌, if◌then◌else◌, Option, none, some, List, [], ◌∷◌, ◌>>=◌,
}

pub record StructuredSegmentDescriptor : Type 0 where
  pub base : ℕ
  pub limit : ℕ
  pub type : ℕ

-- The eight bytes of a `struct segment_descriptor`, in the order of their addresses.
pub record SegmentDescriptor : Type 0 where
  pub b0 : ℕ
  pub b1 : ℕ
  pub b2 : ℕ
  pub b3 : ℕ
  pub b4 : ℕ
  pub b5 : ℕ
  pub b6 : ℕ
  pub b7 : ℕ

-- `none` is the panic, which does not return.
unfoldable pub extract_structured_gdt_to_gdt :
    StructuredSegmentDescriptor → Option SegmentDescriptor
extract_structured_gdt_to_gdt d =
    if ltb 0x10000 d.limit && not (bit_and d.limit 0xfff == 0xfff)
    then none
    else (let large = ltb 0x10000 d.limit in
        let limit = if large then d.limit >>> 12 else d.limit in
        let flags : ℕ = if large then 0xc0 else 0x40 in
        some (record {
          b0 = bit_and limit 0xff;
          b1 = bit_and (limit >>> 8) 0xff;
          b2 = bit_and d.base 0xff;
          b3 = bit_and (d.base >>> 8) 0xff;
          b4 = bit_and (d.base >>> 16) 0xff;
          b5 = d.type;
          b6 = bit_or flags (bit_and (limit >>> 16) 0x0f);
          b7 = bit_and (d.base >>> 24) 0xff;
        }))

-- The entries from the first on; `none` once one of them panics.
unfoldable pub extract_structured_gdt :
    List StructuredSegmentDescriptor → Option (List SegmentDescriptor)
extract_structured_gdt [] = some []
extract_structured_gdt (d ∷ ds) = do
  s ← extract_structured_gdt_to_gdt d
  rest ← extract_structured_gdt ds
  some (s ∷ rest)
