-- ===== src/Libc/Strings.antt =====
-- The string functions of src/kernel/libc/src/string.c, strings.c and ctype.c over the kernel's
-- memory. A `char` is signed, so it is sign-extended where it meets an `int`. The loops that look
-- for the end of a string run on fuel; `none` says that it ran out.
pub mod Case
pub mod Compare
pub mod Copies
pub mod Length
mod Tests
use larva_os.Base.{
  ℕ, zero, suc, ◌+◌, ◌-◌, ◌*◌, ◌/◌, ◌%◌, ◌^◌, Bool, true, false, ◌&&◌, ◌||◌, not, bit_and, bit_or,
  sub32, slt, ltb, ◌==◌, if◌then◌else◌, Option, none, some, Ram, write, null,
}

-- The `int` that a `char` is promoted to.
abbrev pub char_to_int : ℕ → ℕ
char_to_int c = if ltb c 128 then c else c + (2 ^ 32 - 256)

unfoldable pub isupper : ℕ → Bool
isupper c = not (slt c b'A') && not (slt b'Z' c)

unfoldable pub islower : ℕ → Bool
islower c = not (slt c b'a') && not (slt b'z' c)

unfoldable pub isdigit : ℕ → Bool
isdigit c = not (slt c b'0') && not (slt b'9' c)

unfoldable pub tolower : ℕ → ℕ
tolower c = if isupper c then bit_or c 0x20 else c

-- `~0x20` is 0xffffffdf.
unfoldable pub toupper : ℕ → ℕ
toupper c = if islower c then bit_and c 0xffffffdf else c

-- The counter `i` of the loop is an argument.
unfoldable pub strlen : ℕ → Ram → ℕ → ℕ → Option ℕ
strlen zero m s i = none
strlen (suc fuel) m s i =
    let rest = strlen fuel m (s + 1) (i + 1) in if m s == 0 then some i else rest

-- `sc - s`, where the loop has gone `i` bytes on.
unfoldable pub strnlen_loop : Ram → ℕ → ℕ → ℕ → ℕ
strnlen_loop m sc zero i = i
strnlen_loop m sc (suc count) i =
    let rest = strnlen_loop m (sc + 1) count (i + 1) in if not (m sc == 0) then rest else i

unfoldable pub strnlen : Ram → ℕ → ℕ → ℕ
unfolding strnlen_loop
strnlen m s count = strnlen_loop m s count 0

unfoldable pub strchr : ℕ → Ram → ℕ → ℕ → Option ℕ
strchr zero m s c = none
strchr (suc fuel) m s c =
    let rest = strchr fuel m (s + 1) c in
    if m s == c % 256 then some s else if m s == 0 then some null else rest

-- `while ((*d++ = *s++) != 0);`: the memory at its end.
unfoldable pub strcpy : ℕ → Ram → ℕ → ℕ → Option Ram
strcpy zero m d s = none
strcpy (suc fuel) m d s =
    let m' = write m d (m s) in
    let rest = strcpy fuel m' (d + 1) (s + 1) in if m s == 0 then some m' else rest

-- The memory and `count` when the loop of strncpy ends.
strncpy_loop : Ram → ℕ → ℕ → ℕ → ℕ → Ram × ℕ
strncpy_loop m d s zero count = (m, count)
strncpy_loop m d s (suc left) count =
    let m' = write m (d + count) (m (s + count)) in
    let rest = strncpy_loop m' d s left (count + 1) in
    if m' (s + count) == 0 then (m', count) else rest

-- The result, NULL for 255 bytes and more, and the memory.
unfoldable pub strncpy : Ram → ℕ → ℕ → ℕ → ℕ × Ram
unfolding strncpy_loop
strncpy m d s n =
    if (d == null) || (s == null)
    then (null, m)
    else (let n' = if ltb 255 n then 255 else n in
        let (m', count) = strncpy_loop m d s n' 0 in (if not (ltb count 255) then null else d, m'))

unfoldable pub strncmp : Ram → ℕ → ℕ → ℕ → ℕ
strncmp m s1 s2 zero = 0
strncmp m s1 s2 (suc c) =
    let result = sub32 (char_to_int (m s1)) (char_to_int (m s2)) in
    let rest = strncmp m (s1 + 1) (s2 + 1) c in
    if not (result == 0) || (m s1 == 0) then result else rest

-- `signed char res = *su1 - *su2`, promoted to the result.
unfoldable pub memcmp : Ram → ℕ → ℕ → ℕ → ℕ
memcmp m p1 p2 zero = 0
memcmp m p1 p2 (suc c) =
    let res = char_to_int (sub32 (m p1) (m p2) % 256) in
    let rest = memcmp m (p1 + 1) (p2 + 1) c in if not (res == 0) then res else rest

unfoldable pub strcasecmp : ℕ → Ram → ℕ → ℕ → Option ℕ
strcasecmp zero m s1 s2 = none
strcasecmp (suc fuel) m s1 s2 =
    let result = sub32 (tolower (char_to_int (m s1))) (tolower (char_to_int (m s2))) in
    let rest = strcasecmp fuel m (s1 + 1) (s2 + 1) in
    if not (result == 0) || (m s1 == 0) then some result else rest

pub strncasecmp : Ram → ℕ → ℕ → ℕ → ℕ
strncasecmp m s1 s2 zero = 0
strncasecmp m s1 s2 (suc c) =
    let result = sub32 (toupper (char_to_int (m s1))) (toupper (char_to_int (m s2))) in
    let rest = strncasecmp m (s1 + 1) (s2 + 1) c in
    if not (result == 0) || (m s1 == 0) then result else rest
