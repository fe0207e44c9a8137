-- ===== src/Gdt/Decode.antt =====
-- What the processor reads from a descriptor of src/kernel/arch/x86/gdt_runtime/gdt.c, by the
-- format that the comment there draws.
use larva_os.Base.{
  ℕ, ◌+◌, ◌*◌, ◌/◌, ◌%◌, ◌^◌, ◌≤◌, ◌<◌, ◌≡◌, refl, ◌≢◌, ◌⊎◌, inl, inr, bit_and, bit_or, ltb, ◌==◌,
  if◌then◌else◌, none, some, arith, ==_iff, Bool-cases, List, [], ◌∷◌, map, ◌>>>◌, Option-cases,
  ap₂, subst,
}
use mathlib.Core.Option.{some-injective}
use larva_os.Base.Bits.{and_mask, or_fields}
use larva_os.Gdt.{
  StructuredSegmentDescriptor, SegmentDescriptor, extract_structured_gdt_to_gdt,
  extract_structured_gdt,
}

-- Base, limit in bytes less one, and access byte: bit 7 of byte 6 says that the limit of 20 bits
-- counts pages.
abbrev pub base_of : SegmentDescriptor → ℕ
base_of s = s.b2 + s.b3 * 2 ^ 8 + s.b4 * 2 ^ 16 + s.b7 * 2 ^ 24

abbrev pub raw_limit : SegmentDescriptor → ℕ
raw_limit s = s.b0 + s.b1 * 2 ^ 8 + s.b6 % 16 * 2 ^ 16

abbrev pub limit_of : SegmentDescriptor → ℕ
limit_of s = if s.b6 / 128 == 1 then raw_limit s * 4096 + 4095 else raw_limit s

abbrev pub read_segment : SegmentDescriptor → StructuredSegmentDescriptor
read_segment s = record { base = base_of s; limit = limit_of s; type = s.b5 }

-- The fields fit their types: base and limit are 32 bits wide, the type 8.
pub record Fits (d : StructuredSegmentDescriptor) : Type 0 where
  pub base : d.base < 2 ^ 32
  pub limit : d.limit < 2 ^ 32
  pub type : d.type < 2 ^ 8

high_nibble : (f x : ℕ) → f % 16 ≡ 0 → x < 16 → bit_or f x ≡ f + x
high_nibble f x h small =
    let whole : f ≡ f / 16 * 2 ^ 4 = omega arith in ground (arith, or_fields 4 (f / 16) x small)

abbrev pub AllFit : List StructuredSegmentDescriptor → Type 0
AllFit [] = Unit
AllFit (d ∷ ds) = Fits d × AllFit ds

-- The bytes that are stored once the limit and the flags are settled.
abbrev stored : StructuredSegmentDescriptor → ℕ → ℕ → SegmentDescriptor
stored d limit flags = record {
  b0 = bit_and limit 0xff;
  b1 = bit_and (limit >>> 8) 0xff;
  b2 = bit_and d.base 0xff;
  b3 = bit_and (d.base >>> 8) 0xff;
  b4 = bit_and (d.base >>> 16) 0xff;
  b5 = d.type;
  b6 = bit_or flags (bit_and (limit >>> 16) 0x0f);
  b7 = bit_and (d.base >>> 24) 0xff;
}

module _ (d : StructuredSegmentDescriptor) (fits : Fits d) where
  base-stored : (limit flags : ℕ) → base_of (stored d limit flags) ≡ d.base
  base-stored limit flags = omega (
    arith,
    fits.base,
    and_mask 8 d.base,
    and_mask 8 (d.base >>> 8),
    and_mask 8 (d.base >>> 16),
    and_mask 8 (d.base >>> 24),
  )

  module _ (limit flags : ℕ) (small : limit < 2 ^ 20) (clear : flags % 16 ≡ 0) where
    flags-stored : (stored d limit flags).b6 ≡ flags + limit / 2 ^ 16
    flags-stored =
        ground (arith, and_mask 4 (limit >>> 16), high_nibble flags (limit / 2 ^ 16) clear)

    limit-stored : raw_limit (stored d limit flags) ≡ limit
    limit-stored = omega (arith, flags-stored, and_mask 8 limit, and_mask 8 (limit >>> 8))

  read-large :
      0x10000 < d.limit → d.limit % 4096 ≡ 4095 → read_segment (stored d (d.limit >>> 12) 0xc0) ≡ d
  read-large h k = ground (
    arith,
    base-stored (d.limit >>> 12) 0xc0,
    flags-stored (d.limit >>> 12) 0xc0 (omega (arith, fits.limit)) refl,
    limit-stored (d.limit >>> 12) 0xc0 (omega (arith, fits.limit)) refl,
  )

  read-small : d.limit ≤ 0x10000 → read_segment (stored d d.limit 0x40) ≡ d
  read-small h = ground (
    arith,
    base-stored d.limit 0x40,
    flags-stored d.limit 0x40 (omega arith) refl,
    limit-stored d.limit 0x40 (omega arith) refl,
  )

  -- The descriptor of an entry whose limit is at most 64 KiB or ends a page is read back as the
  -- entry, and any other entry panics.
  pub read-extract :
      ((s : SegmentDescriptor) × (extract_structured_gdt_to_gdt d ≡ some s)
        × (read_segment s ≡ d)
        × ((d.limit ≤ 0x10000) ⊎ (d.limit % 4096 ≡ 4095)))
      ⊎ ((extract_structured_gdt_to_gdt d ≡ none) × (0x10000 < d.limit) × (d.limit % 4096 ≢ 4095))
  unfolding extract_structured_gdt_to_gdt
  read-extract = elim (Bool-cases (ltb 0x10000 d.limit)) [
    | inr low ↦ inl (stored d d.limit 0x40, rw low, read-small (ground arith), inl (ground arith))
    | inl large ↦ elim (Bool-cases (bit_and d.limit 0xfff == 0xfff)) [
      | inl whole ↦
          let ends : d.limit % 4096 ≡ 4095 =
            omega (arith, (==_iff _ _).0 whole, and_mask 12 d.limit) in
          inl (
            stored d (d.limit >>> 12) 0xc0,
            rw (large, whole),
            read-large (ground arith) ends,
            inr ends,
          )
      | inr part ↦ inr (rw (large, part), ground arith, λ e. ground (arith, and_mask 12 d.limit))
    ]
  ]

-- Where the whole table is accepted, the processor reads the structured table back from it.
pub read-extract_all :
    (ds : List StructuredSegmentDescriptor)
    → AllFit ds
    → (ss : List SegmentDescriptor) → extract_structured_gdt ds ≡ some ss
    → map read_segment ss ≡ ds
unfolding extract_structured_gdt
read-extract_all [] fit ss h = subst (λ t. map read_segment t ≡ []) (some-injective [] ss h) refl
read-extract_all (d ∷ ds) (f, fs) ss h = elim (read-extract d f) [
  | inr (panics, _, _) ↦ cc (h, panics)
  | inl (s, e, r, _) ↦ elim (Option-cases (extract_structured_gdt ds)) [
    | inl stops ↦ cc (h, e, stops)
    | inr (rest, goes) ↦
        let ends : s ∷ rest ≡ ss = cc (h, e, goes) in
        subst (λ t. map read_segment t ≡ d ∷ ds) ends (ap₂ ◌∷◌ r (read-extract_all ds fs rest goes))
  ]
]
