-- ===== src/Task/List.antt =====
-- The list that the tasks form by `next` and `prev`, for src/kernel/arch/x86/task/task.c.
use larva_os.Base.{
  ℕ, ◌≡◌, ◌≢◌, refl, sym, ap, ◌∙◌, ◌⊎◌, inl, inr, ◌==◌, Bool-cases, ==_iff, ==_true, ==_false, List,
  [], ◌∷◌, ◌++◌,
}
use larva_os.Task.{Task, put}

-- `x` is not in the list.
abbrev pub Fresh : ℕ → List ℕ → Type 0
Fresh x [] = Unit
Fresh x (y ∷ ys) = (x ≢ y) × Fresh x ys

abbrev pub Distinct : List ℕ → Type 0
Distinct [] = Unit
Distinct (x ∷ xs) = Fresh x xs × Distinct xs

abbrev pub Among : ℕ → List ℕ → Type 0
Among c [] = ⊥
Among c (x ∷ xs) = (c ≡ x) ⊎ Among c xs

-- The last of a list, or `d` if there is none.
abbrev pub last_or : ℕ → List ℕ → ℕ
last_or d [] = d
last_or d (x ∷ xs) = last_or x xs

-- From `h` on, `next` leads through the tasks of the list and then to NULL.
abbrev pub Forward : (ℕ → Task) → ℕ → List ℕ → Type 0
Forward f h [] = h ≡ 0
Forward f h (x ∷ xs) = (h ≡ x) × (x ≢ 0) × Forward f (f x).next xs

-- `prev` leads back, from the first task to `p`.
abbrev pub Back : (ℕ → Task) → ℕ → List ℕ → Type 0
Back f p [] = Unit
Back f p (x ∷ xs) = ((f x).prev ≡ p) × Back f x xs

pub put_self : (f : ℕ → Task) (p : ℕ) (t : Task) → put f p t p ≡ t
put_self f p t = rw (==_true p p refl)

pub put_ne : (f : ℕ → Task) (p q : ℕ) (t : Task) → p ≢ q → put f p t q ≡ f q
put_ne f p q t ne = rw (==_false q p (λ e. ne (sym e)))

pub Forward-put :
    (f : ℕ → Task) (q : ℕ) (t : Task) (h : ℕ) (xs : List ℕ)
    → Fresh q xs
    → Forward f h xs
    → Forward (put f q t) h xs
Forward-put f q t h [] a w = w
Forward-put f q t h (x ∷ xs) (ne, a) (e, nz, w) =
    (e, nz, rw (put_ne f q x t ne) (Forward-put f q t (f x).next xs a w))

pub Forward-put_same :
    (f : ℕ → Task) (q : ℕ) (t : Task) (h : ℕ) (xs : List ℕ)
    → t.next ≡ (f q).next
    → Forward f h xs
    → Forward (put f q t) h xs
Forward-put_same f q t h [] same w = w
Forward-put_same f q t h (x ∷ xs) same (e, nz, w) = (
  e,
  nz,
  elim (Bool-cases (x == q)) [
    | inl y ↦
        rw (y, same, ap (λ (z : ℕ). (f z).next) (sym ((==_iff x q).0 y)))
          (Forward-put_same f q t (f x).next xs same w)
    | inr n ↦ rw n (Forward-put_same f q t (f x).next xs same w)
  ],
)

pub Back-put :
    (f : ℕ → Task) (q : ℕ) (t : Task) (p : ℕ) (xs : List ℕ)
    → (t.prev ≡ (f q).prev) ⊎ Fresh q xs
    → Back f p xs
    → Back (put f q t) p xs
Back-put f q t p [] a w = tt
Back-put f q t p (x ∷ xs) (inr (ne, a)) (e, w) =
    (rw (put_ne f q x t ne) e, Back-put f q t x xs (inr a) w)
Back-put f q t p (x ∷ xs) (inl same) (e, w) = elim (Bool-cases (x == q)) [
  | inl y ↦ (
    rw y (same ∙ ap (λ (z : ℕ). (f z).prev) (sym ((==_iff x q).0 y)) ∙ e),
    Back-put f q t x xs (inl same) w,
  )
  | inr n ↦ (rw n e, Back-put f q t x xs (inl same) w)
]

pub Fresh-append : (x : ℕ) (xs ys : List ℕ) → Fresh x (xs ++ ys) → Fresh x xs × Fresh x ys
Fresh-append x [] ys a = (tt, a)
Fresh-append x (y ∷ xs) ys (ne, a) = let (b, c) = Fresh-append x xs ys a in ((ne, b), c)

pub append-Fresh : (x : ℕ) (xs ys : List ℕ) → Fresh x xs → Fresh x ys → Fresh x (xs ++ ys)
append-Fresh x [] ys a b = b
append-Fresh x (y ∷ xs) ys (ne, a) b = (ne, append-Fresh x xs ys a b)

pub Fresh-Among : (x c : ℕ) (xs : List ℕ) → Fresh x xs → Among c xs → x ≢ c
Fresh-Among x c [] a m q = elim m [ ]
Fresh-Among x c (y ∷ ys) (ne, a) (inl e) q = ne (q ∙ e)
Fresh-Among x c (y ∷ ys) (ne, a) (inr m) q = Fresh-Among x c ys a m q

pub Distinct-drop :
    (pre : List ℕ) (t : ℕ) (post : List ℕ)
    → Distinct (pre ++ (t ∷ post))
    → Distinct (pre ++ post) × Fresh t (pre ++ post)
Distinct-drop [] t post (a, d) = (d, a)
Distinct-drop (x ∷ pre) t post (a, d) =
    let (d', b) = Distinct-drop pre t post d in
    let (c, (ne, e)) = Fresh-append x pre (t ∷ post) a in
    ((append-Fresh x pre post c e, d'), ((λ q. ne (sym q)), b))

pub Among-append : (c : ℕ) (xs ys : List ℕ) → Among c (xs ++ ys) → Among c xs ⊎ Among c ys
Among-append c [] ys m = inr m
Among-append c (x ∷ xs) ys (inl e) = inl (inl e)
Among-append c (x ∷ xs) ys (inr m) = elim (Among-append c xs ys m) [
  | inl l ↦ inl (inr l)
  | inr r ↦ inr r
]

pub append-Among : (c : ℕ) (xs ys : List ℕ) → Among c xs ⊎ Among c ys → Among c (xs ++ ys)
append-Among c [] ys (inl m) = elim m [ ]
append-Among c [] ys (inr m) = m
append-Among c (x ∷ xs) ys (inl (inl e)) = inl e
append-Among c (x ∷ xs) ys (inl (inr m)) = inr (append-Among c xs ys (inl m))
append-Among c (x ∷ xs) ys (inr m) = inr (append-Among c xs ys (inr m))

pub last_or-Among : (x : ℕ) (xs : List ℕ) → Among (last_or x xs) (x ∷ xs)
last_or-Among x [] = inl refl
last_or-Among x (y ∷ ys) = inr (last_or-Among y ys)

pub last_or-append : (d t : ℕ) (pre post : List ℕ) → last_or d (pre ++ (t ∷ post)) ≡ last_or t post
last_or-append d t [] post = refl
last_or-append d t (x ∷ pre) post = last_or-append x t pre post

-- `next` of the last task before `t` is set to what follows `t`.
pub Forward-cut :
    (f : ℕ → Task) (h x : ℕ) (pre : List ℕ) (t : ℕ) (post : List ℕ)
    → Distinct (x ∷ (pre ++ (t ∷ post)))
    → Forward f h (x ∷ (pre ++ (t ∷ post)))
    → Forward
        (put f (last_or x pre) (record (f (last_or x pre)) { next = (f t).next }))
        h
        (x ∷ (pre ++ post))
Forward-cut f h x [] t post ((ne, a), d) (e, nz, (et, tz, w)) =
    (e, nz, rw (==_true x x refl) (Forward-put f x _ (f t).next post a w))
Forward-cut f h x (y ∷ pre) t post (a, d) (e, nz, w) = (
  e,
  nz,
  rw (put_ne f (last_or y pre) x (record (f (last_or y pre)) { next = (f t).next }) apart)
      (Forward-cut f (f x).next y pre t post d w),
)
  where
    apart : last_or y pre ≢ x
    apart q =
        Fresh-Among x (last_or y pre) (y ∷ (pre ++ (t ∷ post))) a
          (append-Among (last_or y pre) (y ∷ pre) (t ∷ post) (inl (last_or-Among y pre))) (sym q)

-- The new task goes behind the last one.
pub Forward-append :
    (f : ℕ → Task) (h x : ℕ) (xs : List ℕ) (t : ℕ)
    → Distinct (x ∷ xs)
    → Forward f h (x ∷ xs)
    → t ≢ 0
    → Fresh t (x ∷ xs)
    → (f t).next ≡ 0
    → Forward
        (put f (last_or x xs) (record (f (last_or x xs)) { next = t }))
        h
        (x ∷ (xs ++ (t ∷ [])))
Forward-append f h x [] t (a, d) (e, nz, w) tz (ne, fr) end =
    (e, nz, (rw (==_true x x refl), tz, rw (==_false t x ne) end))
Forward-append f h x (y ∷ xs) t (a, d) (e, nz, w) tz (ne, fr) end = (
  e,
  nz,
  rw (put_ne f (last_or y xs) x (record (f (last_or y xs)) { next = t }) apart)
      (Forward-append f (f x).next y xs t d w tz fr end),
)
  where
    apart : last_or y xs ≢ x
    apart q = Fresh-Among x (last_or y xs) (y ∷ xs) a (last_or-Among y xs) (sym q)
