-- ===== src/Gdt/Tests.antt =====
-- The kernel's own table, src/kernel/core/architecture.cc, and descriptors at single inputs.
use larva_os.Base.{◌≡◌, refl, none, some, [], ◌∷◌}
use larva_os.Gdt.{
  StructuredSegmentDescriptor, SegmentDescriptor, extract_structured_gdt_to_gdt,
  extract_structured_gdt,
}

abbrev kernel_code : StructuredSegmentDescriptor
kernel_code = record { base = 0; limit = 0xffffffff; type = 0x9a }

abbrev task_state : StructuredSegmentDescriptor
task_state = record { base = 0x123456; limit = 104; type = 0xe9 }

abbrev code_bytes : SegmentDescriptor
code_bytes = record { b0 = 0xff; b1 = 0xff; b2 = 0; b3 = 0; b4 = 0; b5 = 0x9a; b6 = 0xcf; b7 = 0 }

abbrev task_bytes : SegmentDescriptor
task_bytes = record {
  b0 = 104;
  b1 = 0;
  b2 = 0x56;
  b3 = 0x34;
  b4 = 0x12;
  b5 = 0xe9;
  b6 = 0x40;
  b7 = 0;
}

kernel_table :
    extract_structured_gdt (kernel_code ∷ task_state ∷ []) ≡ some (code_bytes ∷ task_bytes ∷ [])
unfolding extract_structured_gdt extract_structured_gdt_to_gdt
kernel_table = refl

odd_limit : extract_structured_gdt_to_gdt (record kernel_code { limit = 0x20000 }) ≡ none
unfolding extract_structured_gdt_to_gdt
odd_limit = refl
