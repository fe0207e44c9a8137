-- ===== src/Core/Console.antt =====
-- The class ostream of src/kernel/core/iostream.cc and kernel_panic of panic.cc, over the text
-- screen. The loops that look for the end of a text run on fuel.
use larva_os.Base.{ℕ, Option, some, ◌>>=◌, [], ◌∷◌, Ram}
use larva_os.Libc.Numbers.{itoa}
use larva_os.Video.{Screen, clear, print, set_color, write}

-- ostream::ostream().
unfoldable pub new_ostream : Screen → Screen
unfolding clear
new_ostream v = clear v

-- The operators << for a text, a number, whose local array is `str`, and a color.
unfoldable pub put_text : ℕ → Ram → Screen → ℕ → Option Screen
put_text fuel m v str = print fuel m v str

unfoldable pub put_number : ℕ → Ram → Screen → ℕ → ℕ → Option (Ram × Screen)
put_number fuel m v str num =
    itoa fuel m num str 10 >>= λ (m' : Ram). print fuel m' v str >>= λ (v' : Screen). some (m', v')

unfoldable pub put_color : Screen → ℕ → Screen
unfolding set_color
put_color v color = set_color v color

-- The text "\n".
unfoldable pub endl : Screen → Screen
endl v = write v (b'\n' ∷ [])

-- arc_panic of panic.c, which kernel_panic::panic calls: the screen when the machine is stopped.
unfoldable pub arc_panic : ℕ → Ram → Screen → ℕ → Option Screen
arc_panic fuel m v msg =
    let v1 = write v (b'P' ∷ b'A' ∷ b'N' ∷ b'I' ∷ b'C' ∷ b':' ∷ b' ' ∷ []) in
    print fuel m v1 msg >>= λ (v2 : Screen). some (write v2 (b'\n' ∷ []))
