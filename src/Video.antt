-- ===== src/Video.antt =====
-- The text screen of src/kernel/arch/x86/video/video.c: the cursor and the cells of the video
-- memory. `size_t` has 32 bits and wraps. A cell's index is taken modulo 2 ^ 31, since an address
-- has 32 bits and a cell two bytes.
pub mod Cursor
mod Tests
use larva_os.Base.{
  ℕ, zero, suc, ◌+◌, ◌-◌, ◌*◌, ◌/◌, ◌%◌, ◌^◌, Bool, ◌&&◌, ◌||◌, if◌then◌else◌, ◌==◌, ltb, bit_or,
  u8, u16, u32, sub32, List, [], ◌∷◌, Ram, Option, none, some, ◌>>=◌,
}
use larva_os.Libc.Numbers.{itoa}
use larva_os.Libc.Strings.{char_to_int, strlen}

abbrev pub g_vga_width : ℕ
g_vga_width = 80

abbrev pub g_vga_height : ℕ
g_vga_height = 40

abbrev pub g_screen_size : ℕ
g_screen_size = g_vga_width * g_vga_height

abbrev pub vga_color_white : ℕ
vga_color_white = 15

-- `g_video_mem` by cells.
pub record Screen : Type 0 where
  pub g_video_mem : ℕ → ℕ
  pub g_row : ℕ
  pub g_column : ℕ
  pub g_color : ℕ

abbrev pub is_end_line_char : ℕ → Bool
is_end_line_char c = c == 10

abbrev pub is_backspace_char : ℕ → Bool
is_backspace_char c = c == 8

abbrev pub is_special_char : ℕ → Bool
is_special_char c = is_end_line_char c || is_backspace_char c

-- `c` is a signed `char`, so a code of 128 and more fills the byte of the color with ones.
unfoldable pub vga_entry : ℕ → ℕ → ℕ
vga_entry c color = u16 (bit_or (char_to_int c) (color * 2 ^ 8))

unfoldable pub putc_at : Screen → ℕ → ℕ → ℕ → ℕ → Screen
putc_at v c color x y =
    let index = u32 (y * g_vga_width + x) % 2 ^ 31 in
    record v { g_video_mem = λ i. if i == index then vga_entry c color else v.g_video_mem i }

-- The part of putc after its test, and so the whole of it where `c` is a space.
unfoldable pub putc_plain : Screen → ℕ → Screen
putc_plain v c =
    let v' = putc_at v c v.g_color v.g_column v.g_row in
    let column = u32 (v.g_column + 1) in
    let row = u32 (v.g_row + 1) in
    if column == g_vga_width
    then record v' { g_column = 0; g_row = if row == g_vga_height then 0 else row }
    else record v' { g_column = column }

unfoldable pub backspace : Screen → Screen
backspace v =
    if (v.g_column == 0) && (v.g_row == 0)
    then v
    else (let v1 =
          if v.g_column == 0
          then record v { g_row = sub32 v.g_row 1; g_column = g_vga_width }
          else v in
        let v2 = record v1 { g_column = sub32 v1.g_column 1 } in
        let v3 = putc_plain v2 b' ' in record v3 { g_column = sub32 v3.g_column 1 })

unfoldable pub put_special_char : Screen → ℕ → Screen
put_special_char v c =
    if is_end_line_char c
    then record v { g_row = u32 (v.g_row + 1); g_column = 0 }
    else (if is_backspace_char c then backspace v else v)

unfoldable pub putc : Screen → ℕ → Screen
putc v c = if is_special_char c then put_special_char v c else putc_plain v c

-- The argument is the list of the `size` bytes at `data`.
pub write : Screen → List ℕ → Screen
write v [] = v
write v (c ∷ cs) = write (putc v c) cs

unfoldable pub set_color : Screen → ℕ → Screen
set_color v c = record v { g_color = u8 c }

-- memset clears `g_screen_size` bytes, which are the first half of the cells.
unfoldable pub clear : Screen → Screen
clear v = record {
  g_video_mem = λ i. if ltb (2 * i) g_screen_size then 0 else v.g_video_mem i;
  g_row = 0;
  g_column = 0;
  g_color = vga_color_white;
}

-- The `n` characters from `p` on.
unfoldable pub characters : Ram → ℕ → ℕ → List ℕ
characters m p zero = []
characters m p (suc n) = m p ∷ characters m (p + 1) n

unfoldable pub print : ℕ → Ram → Screen → ℕ → Option Screen
unfolding characters
print fuel m v str = strlen fuel m str 0 >>= λ (n : ℕ). some (write v (characters m str n))

-- `str` is the address of the local array.
unfoldable pub print_number : ℕ → Ram → Screen → ℕ → ℕ → Option (Ram × Screen)
unfolding print
print_number fuel m v str x =
    itoa fuel m x str 10 >>= λ (m' : Ram). print fuel m' v str >>= λ (v' : Screen). some (m', v')
