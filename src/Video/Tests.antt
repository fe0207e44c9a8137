-- ===== src/Video/Tests.antt =====
-- Runs of the screen code, for src/kernel/arch/x86/video/video.c.
use larva_os.Base.{ℕ, ◌+◌, ◌≤◌, ◌≡◌, refl, arith, [], ◌∷◌, ◌++◌}
use larva_os.Video.{Screen, clear, set_color, write, vga_entry}
use larva_os.Video.Cursor.{
  InScreen, Writes, newlines, newlines_leave_screen, position, write-InScreen,
}

abbrev fresh : Screen
fresh = record { g_video_mem = λ i. 7; g_row = 3; g_column = 0; g_color = 15 }

fresh-InScreen : InScreen fresh
fresh-InScreen = record { row_in = omega arith; column_in = omega arith }

write-InScreen_example :
    InScreen (write fresh (65 ∷ 66 ∷ []))
    × (position (write fresh (65 ∷ 66 ∷ [])) ≡ 242)
    × ((i : ℕ) → 3200 ≤ i → (write fresh (65 ∷ 66 ∷ [])).g_video_mem i ≡ 7)
write-InScreen_example =
    write-InScreen (65 ∷ 66 ∷ []) fresh (λ i h. (ground arith, ground arith)) fresh-InScreen

-- The cell 3200 lies behind the screen.
newlines_leave_screen_example :
    Writes fresh (write fresh (newlines 37 ++ (65 ∷ []))) 3200 (vga_entry 65 15)
newlines_leave_screen_example =
    newlines_leave_screen 36 fresh 65 (omega arith, omega arith) fresh-InScreen (omega arith)

-- clear leaves the lower half of the screen as it was.
clear-fresh : (clear fresh).g_video_mem 1599 + (clear fresh).g_video_mem 1600 ≡ 7
unfolding clear
clear-fresh = refl

set_color-fresh : (set_color fresh 4).g_color ≡ 4
unfolding set_color
set_color-fresh = refl

white_a : vga_entry 65 15 ≡ 3905
unfolding vga_entry
white_a = refl
