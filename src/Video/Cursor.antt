-- ===== src/Video/Cursor.antt =====
-- Where the cursor goes and which cells are written, for src/kernel/arch/x86/video/video.c.
use larva_os.Base.{
  ℕ, zero, suc, ◌+◌, ◌-◌, ◌*◌, ◌%◌, ◌^◌, ◌≤◌, ◌<◌, ◌≡◌, ◌≢◌, refl, ◌∙◌, ap, sym, arith,
  if◌then◌else◌, ◌==◌, u32, sub32, List, [], ◌∷◌, ◌⊎◌, inl, inr, length, ◌++◌, Bool-cases, ==_iff,
  ==_neq, get_or, subst,
}
use larva_os.Video.{
  Screen, putc, putc_plain, putc_at, put_special_char, backspace, write, vga_entry,
}

-- The cursor stands on a cell of the screen.
pub record InScreen (v : Screen) : Type 0 where
  pub row_in : v.g_row < 40
  pub column_in : v.g_column < 80

-- The index of the cell that the next character goes to.
abbrev pub position : Screen → ℕ
position v = u32 (v.g_row * 80 + v.g_column)

-- `v'` has the memory of `v` with `x` in the cell `p`.
abbrev pub Writes : Screen → Screen → ℕ → ℕ → Type 0
Writes v v' p x = (i : ℕ) → v'.g_video_mem i ≡ (if i == p then x else v.g_video_mem i)

abbrev pub IsPlain : ℕ → Type 0
IsPlain c = (c ≢ 10) × (c ≢ 8)

plain : (v : Screen) (c : ℕ) → IsPlain c → putc v c ≡ putc_plain v c
unfolding putc
plain v c (a, b) = ground arith

row-putc_plain :
    (v : Screen) (c : ℕ)
    → (putc_plain v c).g_row ≡ (
        if u32 (v.g_column + 1) == 80
        then if u32 (v.g_row + 1) == 40 then 0 else u32 (v.g_row + 1)
        else v.g_row)
unfolding putc_plain putc_at
row-putc_plain v c = ground arith

column-putc_plain :
    (v : Screen) (c : ℕ)
    → (putc_plain v c).g_column ≡ (if u32 (v.g_column + 1) == 80 then 0 else u32 (v.g_column + 1))
unfolding putc_plain putc_at
column-putc_plain v c = ground arith

color-putc_plain : (v : Screen) (c : ℕ) → (putc_plain v c).g_color ≡ v.g_color
unfolding putc_plain putc_at
color-putc_plain v c = ground arith

cells-putc_plain :
    (v : Screen) (c : ℕ) → Writes v (putc_plain v c) (position v % 2 ^ 31) (vga_entry c v.g_color)
unfolding putc_plain putc_at
cells-putc_plain v c i = ground arith

-- A plain character goes to the cell under the cursor, which moves on by one cell, from the last
-- cell of the screen to the first.
pub record Advances (v v' : Screen) (c : ℕ) : Type 0 where
  pub in_screen : InScreen v'
  pub moves : position v' ≡ (position v + 1) % 3200
  pub writes : Writes v v' (position v) (vga_entry c v.g_color)
  pub same_color : v'.g_color ≡ v.g_color

putc_plain-Advances : (v : Screen) (c : ℕ) → InScreen v → Advances v (putc_plain v c) c
putc_plain-Advances v c s = record {
  in_screen = record {
    row_in = ground (arith, row-putc_plain v c, s.row_in, s.column_in);
    column_in = ground (arith, column-putc_plain v c, s.row_in, s.column_in);
  };
  moves = ground (arith, row-putc_plain v c, column-putc_plain v c, s.row_in, s.column_in);
  writes = λ i. cells-putc_plain v c i ∙ ground (arith, s.row_in, s.column_in);
  same_color = color-putc_plain v c;
}

-- All characters of `cs` are plain.
abbrev pub AllPlain : List ℕ → Type 0
AllPlain cs = (i : ℕ) → (h : i < length cs) → IsPlain (get_or cs i 0)

outside_kept :
    (v v' : Screen) (c i : ℕ)
    → InScreen v
    → Advances v v' c
    → 3200 ≤ i
    → v'.g_video_mem i ≡ v.g_video_mem i
outside_kept v v' c i s a h = a.writes i ∙ ground (arith, s.row_in, s.column_in)

-- From a cursor on the screen, text without `\n` and `\b` leaves the cursor on the screen, as many
-- cells on as it has characters, and no cell beyond the 3200 of the screen changes.
pub write-InScreen :
    (cs : List ℕ) (v : Screen)
    → AllPlain cs
    → InScreen v
    → InScreen (write v cs)
      × (position (write v cs) ≡ (position v + length cs) % 3200)
      × ((i : ℕ) → 3200 ≤ i → (write v cs).g_video_mem i ≡ v.g_video_mem i)
unfolding write
write-InScreen [] v p s = (s, ground (arith, s.row_in, s.column_in), λ i h. refl)
write-InScreen (c ∷ cs) v p s =
    let step : Advances v (putc v c) c =
      subst (λ (v' : Screen). Advances v v' c) (sym (plain v c (p 0 (omega arith))))
        (putc_plain-Advances v c s) in
    let (inside, moves, kept) =
      write-InScreen cs (putc v c) (λ i h. p (suc i) (omega arith)) step.in_screen in
    (
      inside,
      moves ∙ ground (arith, step.moves, s.row_in, s.column_in),
      λ i h. kept i h ∙ outside_kept v (putc v c) c i s step h,
    )

newline : (v : Screen) → putc v 10 ≡ record v { g_row = u32 (v.g_row + 1); g_column = 0 }
unfolding putc put_special_char
newline v = refl

write-newline :
    (v : Screen) (cs : List ℕ)
    → write v (10 ∷ cs) ≡ write (record v { g_row = u32 (v.g_row + 1); g_column = 0 }) cs
unfolding write
write-newline v cs = ap (λ (v' : Screen). write v' cs) (newline v)

pub newlines : ℕ → List ℕ
newlines zero = []
newlines (suc n) = 10 ∷ newlines n

row_start_written :
    (v : Screen) (c : ℕ)
    → IsPlain c
    → v.g_column ≡ 0
    → v.g_row < 2 ^ 24
    → Writes v (putc v c) (v.g_row * 80) (vga_entry c v.g_color)
row_start_written v c p e h i = rw (plain v c p) (cells-putc_plain v c i ∙ ground arith)

newlines_from :
    (n : ℕ) (v : Screen) (c : ℕ)
    → IsPlain c
    → v.g_row + n < 2 ^ 23
    → Writes v
        (write v (newlines (suc n) ++ (c ∷ [])))
        ((v.g_row + suc n) * 80)
        (vga_entry c v.g_color)
unfolding newlines write
newlines_from zero v c p h i = rw (write-newline v (c ∷ [])) (
    row_start_written (record v { g_row = u32 (v.g_row + 1); g_column = 0 }) c p refl (omega arith)
      i
    ∙ ground arith)
newlines_from (suc n) v c p h i = rw (write-newline v (newlines (suc n) ++ (c ∷ []))) (
    newlines_from n (record v { g_row = u32 (v.g_row + 1); g_column = 0 }) c p (omega arith) i
    ∙ ground arith)

-- A `\n` never returns to the top: after `n + 1` of them the next character goes to the start of
-- the row so far below the cursor's, also where that is below the 40 rows of the screen.
pub newlines_leave_screen :
    (n : ℕ) (v : Screen) (c : ℕ)
    → IsPlain c
    → InScreen v
    → n < 2 ^ 22
    → Writes v
        (write v (newlines (suc n) ++ (c ∷ [])))
        ((v.g_row + suc n) * 80)
        (vga_entry c v.g_color)
newlines_leave_screen n v c p s h = newlines_from n v c p (omega (arith, s.row_in))

-- What `\b` makes of a cursor on the screen.
pub record StepsBack (v v' : Screen) : Type 0 where
  pub same_row : v'.g_row ≡ v.g_row
  pub one_less : v'.g_column ≡ sub32 v.g_column 1
  pub blanks : Writes v v' (position v - 1) (vga_entry b' ' v.g_color)
  pub keeps_color : v'.g_color ≡ v.g_color

backspace-StepsBack : (v : Screen) → InScreen v → position v ≢ 0 → StepsBack v (putc v 8)
unfolding putc put_special_char backspace putc_plain putc_at
backspace-StepsBack v s h = record {
  same_row = ground (arith, s.row_in, s.column_in);
  one_less = ground (arith, s.row_in, s.column_in);
  blanks = λ i. ground (arith, s.row_in, s.column_in);
  keeps_color = ground (arith, s.row_in, s.column_in);
}

at_start : (v : Screen) → InScreen v → position v ≡ 0 → putc v 8 ≡ v
unfolding putc put_special_char backspace
at_start v s e = ground (arith, s.row_in, s.column_in)

retyped :
    (v v' : Screen) (c : ℕ)
    → InScreen v
    → StepsBack v v'
    → position v ≢ 0
    → Writes v (putc_plain v' c) (position v - 1) (vga_entry c v.g_color)
retyped v v' c s b ne i =
    cells-putc_plain v' c i
    ∙ ground (arith, b.blanks i, b.same_row, b.one_less, b.keeps_color, s.row_in, s.column_in)

-- `\b` on the first cell does nothing. Elsewhere it blanks the cell before the cursor, and the
-- next plain character goes there, also across the start of a row, where `g_column` wraps: then
-- the cursor is where it was, and only that one cell has changed.
pub retype_lem :
    (v : Screen) (c : ℕ)
    → InScreen v
    → IsPlain c
    → ((position v ≡ 0) × (putc v 8 ≡ v))
      ⊎ ((position v ≢ 0)
          × Writes v (putc v 8) (position v - 1) (vga_entry b' ' v.g_color)
          × Writes v (putc (putc v 8) c) (position v - 1) (vga_entry c v.g_color)
          × ((putc (putc v 8) c).g_row ≡ v.g_row)
          × ((putc (putc v 8) c).g_column ≡ v.g_column))
retype_lem v c s p = elim (Bool-cases (position v == 0)) [
  | inl t ↦ inl ((==_iff _ _).0 t, at_start v s ((==_iff _ _).0 t))
  | inr f ↦
      let b : StepsBack v (putc v 8) = backspace-StepsBack v s (==_neq _ _ f) in
      inr (
        ==_neq _ _ f,
        b.blanks,
        λ i. rw (plain (putc v 8) c p) (retyped v (putc v 8) c s b (==_neq _ _ f) i),
        rw (plain (putc v 8) c p) (
            row-putc_plain (putc v 8) c
            ∙ ground (arith, b.same_row, b.one_less, s.row_in, s.column_in)),
        rw (plain (putc v 8) c p) (
            column-putc_plain (putc v 8) c
            ∙ ground (arith, b.same_row, b.one_less, s.row_in, s.column_in)),
      )
]
