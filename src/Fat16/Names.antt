-- ===== src/Fat16/Names.antt =====
-- The names of directory items, for src/kernel/arch/x86/fs/fat16.c.
use larva_os.Base.{
  append-nil, ℕ, zero, suc, ◌+◌, ◌≤◌, ◌<◌, ◌≡◌, refl, ◌∙◌, ap₂, subst, arith, Bool, true, false,
  ◌||◌, ◌&&◌, not, if◌then◌else◌, ◌==◌, ◌⊎◌, inl, inr, Bool-cases, List, [], ◌∷◌, ◌++◌, length, Ram,
  write,
}
use larva_os.Libc.Memory.{memset, memset_lem}
use larva_os.Disk.Stream.Round.{Apart, Off}
use larva_os.Fat16.{copy_name, fat16_get_full_relative_filename, fat16_to_proper_string}

abbrev pub blank : ℕ → Bool
blank c = (c == 0x00) || (c == 0x20)

-- The `n` bytes from `p` on.
unfoldable pub field : Ram → ℕ → ℕ → List ℕ
field m p zero = []
field m p (suc n) = m p ∷ field m (p + 1) n

-- A field without the blanks that fill it up.
unfoldable pub trim : List ℕ → List ℕ
trim [] = []
trim (c ∷ cs) = if blank c then [] else c ∷ trim cs

unfoldable pub dotted : List ℕ → List ℕ
dotted [] = []
dotted (c ∷ cs) = b'.' ∷ c ∷ cs

-- The name of an item in the notation of a path, such as DATA.TXT.
unfoldable pub full_name : Ram → ℕ → List ℕ
full_name m item = trim (field m item 8) ++ dotted (trim (field m (item + 8) 3))

-- At `p` stands the string `xs`, and then a 0.
unfoldable pub Spells : Ram → ℕ → List ℕ → Type 0
Spells m p [] = m p ≡ 0
Spells m p (x ∷ xs) = (m p ≡ x) × Spells m (p + 1) xs

field_ext :
    (m n : Ram) (p len : ℕ)
    → ((q : ℕ) → p ≤ q → q < p + len → m q ≡ n q)
    → field m p len ≡ field n p len
unfolding field
field_ext m n p zero h = refl
field_ext m n p (suc len) h =
    ap₂ (λ (x : ℕ) (xs : List ℕ). x ∷ xs) (h p (omega arith) (omega arith))
      (field_ext m n (p + 1) len (λ q a b. h q (omega arith) (omega arith)))

Spells-append :
    (m n : Ram) (p : ℕ) (xs ys : List ℕ)
    → Spells m p xs
    → ((q : ℕ) → q < p + length xs → p ≤ q → n q ≡ m q)
    → Spells n (p + length xs) ys
    → Spells n p (xs ++ ys)
unfolding Spells
Spells-append m n p [] ys a h b = subst (λ i. Spells n i ys) (omega arith) b
Spells-append m n p (x ∷ xs) ys a h b = (
  h p (omega arith) (omega arith) ∙ a.0,
  Spells-append m n (p + 1) xs ys a.1 (λ q i j. h q (omega arith) (omega arith))
      (subst (λ i. Spells n i ys) (omega arith) b),
)

-- The string `xs` at `out`, and nothing changed but in its area.
abbrev pub Named : Ram → Ram → ℕ → ℕ → List ℕ → Type 0
Named m n out room xs = Spells n out xs × ((q : ℕ) → Off out room q → n q ≡ m q)

-- What fat16_to_proper_string makes of the bytes `xs` at `out`.
Copies : Ram → ℕ → ℕ → List ℕ → ℕ × Ram → Type 0
Copies m out left xs r =
    (r.0 ≡ out + length xs)
    × (length xs ≤ left)
    × Spells r.1 out xs
    × ((q : ℕ) → (q < out) ⊎ (out + length xs < q) → r.1 q ≡ m q)

copy-empty : (m : Ram) (out left : ℕ) → Copies m out left [] (out, write m out 0)
unfolding Copies Spells
copy-empty m out left = (omega arith, omega arith, ground arith, λ q h. ground arith)

copy-some :
    (m : Ram) (out left c : ℕ) (xs : List ℕ) (r : ℕ × Ram)
    → Copies (write m out c) (out + 1) left xs r
    → Copies m out (suc left) (c ∷ xs) r
unfolding Copies Spells
copy-some m out left c xs r (place, room, spelled, same) = (
  omega (arith, place),
  omega (arith, room),
  (same out (omega arith) ∙ ground arith, spelled),
  λ q h. same q (omega (arith, h)) ∙ ground arith,
)

copy_name_lem :
    (left : ℕ) (m : Ram) (out source : ℕ)
    → Apart out left source left
    → Copies m out left (trim (field m source left)) (fat16_to_proper_string m out source left)
unfolding fat16_to_proper_string copy_name field trim
copy_name_lem zero m out source a = copy-empty m out 0
copy_name_lem (suc left) m out source a =
    let m' = write m out (m source) in
    let same : field m' (source + 1) left ≡ field m (source + 1) left =
      field_ext m' m (source + 1) left (λ q i j. ground arith) in
    let rest =
      subst
        (λ xs.
          Copies m' (out + 1) left (trim xs)
            (fat16_to_proper_string m' (out + 1) (source + 1) left))
        same (copy_name_lem left m' (out + 1) (source + 1) (omega arith)) in
    elim (Bool-cases (blank (m source))) [
      | inl e ↦ rw e (copy-empty m out (suc left))
      | inr e ↦ rw e (copy-some m out left (m source) (trim (field m (source + 1) left)) _ rest)
    ]

dotted-blank : (m : Ram) (ext : ℕ) → blank (m ext) ≡ true → dotted (trim (field m ext 3)) ≡ []
unfolding dotted trim field
dotted-blank m ext e = rw e refl

dotted-some :
    (m : Ram) (ext : ℕ)
    → blank (m ext) ≡ false
    → dotted (trim (field m ext 3)) ≡ b'.' ∷ trim (field m ext 3)
unfolding dotted trim field
dotted-some m ext e = rw e refl

not-blank : (x : ℕ) → (not (x == 0x00) && not (x == 0x20)) ≡ not (blank x)
not-blank x = ground arith

-- A dot and the second field behind the first.
name-dot :
    (m m2 : Ram) (out ext : ℕ) (xs : List ℕ)
    → length xs ≤ 8
    → Spells m2 out xs
    → ((q : ℕ) → Off out 13 q → m2 q ≡ m q)
    → Apart out 13 ext 3
    → Named m
        (fat16_to_proper_string (write m2 (out + length xs) b'.') (out + length xs + 1) ext 3).1
        out
        13
        (xs ++ b'.' ∷ trim (field m ext 3))
unfolding Copies Spells
name-dot m m2 out ext xs short spelled same a =
    let place = out + length xs in
    let m3 = write m2 place b'.' in
    let (_, room, ext_spelled, kept) = copy_name_lem 3 m3 (place + 1) ext (omega arith) in
    let field_same : field m3 ext 3 ≡ field m ext 3 =
      field_ext m3 m ext 3 (λ q i j. ground arith ∙ same q (omega arith)) in
    let m4 = (fat16_to_proper_string m3 (place + 1) ext 3).1 in
    (
      Spells-append m2 m4 out xs (b'.' ∷ trim (field m ext 3)) spelled
          (λ q i j. kept q (omega arith) ∙ ground arith)
          (
            kept place (omega arith) ∙ ground arith,
            subst (λ ys. Spells m4 (place + 1) (trim ys)) field_same ext_spelled,
          ),
      λ q h. kept q (omega arith) ∙ ground arith ∙ same q h,
    )

-- The second step of a name, behind the first of its two fields.
name-ext :
    (m m2 : Ram) (out place ext : ℕ) (xs : List ℕ)
    → place ≡ out + length xs
    → length xs ≤ 8
    → Spells m2 out xs
    → ((q : ℕ) → Off out 13 q → m2 q ≡ m q)
    → Apart out 13 ext 3
    → Named m
        (if not (m2 ext == 0x00) && not (m2 ext == 0x20)
          then (fat16_to_proper_string (write m2 place b'.') (place + 1) ext 3).1
          else m2)
        out
        13
        (xs ++ dotted (trim (field m ext 3)))
name-ext m m2 out place ext xs e short spelled same a =
    let ext_same : m2 ext ≡ m ext = same ext (omega arith) in
    rw (e, ext_same, not-blank (m ext))
      (elim (Bool-cases (blank (m ext))) [
        | inl b ↦ rw (b, dotted-blank m ext b, append-nil xs) (spelled, same)
        | inr b ↦ rw (b, dotted-some m ext b) (name-dot m m2 out ext xs short spelled same a)
      ])

-- fat16_get_full_relative_filename writes the name of the item in the notation of a path, the
-- blanks of its two fields cut off and a dot between them where the second is not blank, as a
-- string into the buffer, and changes nothing outside, if the buffer has at least 13 bytes and none
-- of the item.
pub fat16_get_full_relative_filename_lem :
    (m : Ram) (item out max_len : ℕ)
    → 13 ≤ max_len
    → Apart out max_len item 11
    → Named m (fat16_get_full_relative_filename m item out max_len) out max_len (full_name m item)
unfolding fat16_get_full_relative_filename full_name Copies
fat16_get_full_relative_filename_lem m item out max_len room a =
    let m1 = memset m out 0x00 max_len in
    let cleared : (q : ℕ) → Off out max_len q → m1 q ≡ m q =
      λ q h. memset_lem m out 0x00 max_len q ∙ ground arith in
    let first = fat16_to_proper_string m1 out item 8 in
    let (place, short, spelled, same) = copy_name_lem 8 m1 out item (omega arith) in
    let named =
      name-ext m1 first.1 out first.0 (item + 8) (trim (field m1 item 8)) place short spelled
        (λ q h. same q (omega arith)) (omega arith) in
    let name_same : field m1 item 8 ≡ field m item 8 =
      field_ext m1 m item 8 (λ q i j. cleared q (omega arith)) in
    let ext_same : field m1 (item + 8) 3 ≡ field m (item + 8) 3 =
      field_ext m1 m (item + 8) 3 (λ q i j. cleared q (omega arith)) in
    (
      subst (λ xs. Spells (fat16_get_full_relative_filename m item out max_len) out xs)
          (ap₂ (λ u v. trim u ++ dotted (trim v)) name_same ext_same) named.0,
      λ q h. named.1 q (omega arith) ∙ cleared q h,
    )
