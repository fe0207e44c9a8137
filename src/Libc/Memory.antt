-- ===== src/Libc/Memory.antt =====
-- memset, memcpy and memcmp of src/kernel/libc/src/string.c over the kernel's memory.
use larva_os.Base.{
  ◌∙◌, ℕ, zero, suc, ◌+◌, ◌≡◌, arith, u8, Ram, write, ltb, leb, ◌&&◌, if◌then◌else◌,
}

-- `for (i = 0; i < size; i++) c_ptr[i] = (char)c;`, with `left` rounds to go.
unfoldable pub memset_loop : Ram → ℕ → ℕ → ℕ → ℕ → Ram
memset_loop m ptr c zero i = m
memset_loop m ptr c (suc left) i = memset_loop (write m (ptr + i) (u8 c)) ptr c left (i + 1)

-- The object lies below the end of the address space, so that no address wraps.
unfoldable pub memset : Ram → ℕ → ℕ → ℕ → Ram
unfolding memset_loop
memset m ptr c size = memset_loop m ptr c size 0

-- `while (n--) *dest++ = *src++;`
unfoldable pub memcpy : Ram → ℕ → ℕ → ℕ → Ram
memcpy m d s zero = m
memcpy m d s (suc n) = memcpy (write m d (m s)) (d + 1) (s + 1) n

memset_loop_lem :
    (left i : ℕ) (m : Ram) (ptr c q : ℕ)
    → memset_loop m ptr c left i q
      ≡ (if leb (ptr + i) q && ltb q (ptr + i + left) then u8 c else m q)
unfolding memset_loop
memset_loop_lem zero i m ptr c q = ground arith
memset_loop_lem (suc left) i m ptr c q =
    ground (arith, memset_loop_lem left (i + 1) (write m (ptr + i) (u8 c)) ptr c q)

-- memset stores the byte in the object's `size` bytes and nowhere else.
pub memset_lem :
    (m : Ram) (ptr c size q : ℕ)
    → memset m ptr c size q ≡ (if leb ptr q && ltb q (ptr + size) then u8 c else m q)
unfolding memset
memset_lem m ptr c size q = memset_loop_lem size 0 m ptr c q ∙ ground arith
