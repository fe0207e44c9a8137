-- ===== src/Task/Queues.antt =====
-- The queue of tasks that the scheduler sees, for src/kernel/arch/x86/task/task.c.
use larva_os.Base.{
  ℕ, ◌≡◌, ◌≢◌, refl, sym, ◌∙◌, ◌⊎◌, inl, inr, arith, if◌then◌else◌, ◌==◌, Bool-cases, ==_true,
  ==_false, ==_neq, List, [], ◌∷◌, ◌++◌,
}
use larva_os.Task.{Task, Tasks, put, remove_task_from_linked_list}
use larva_os.Task.List.{
  Among, Distinct, Forward, Fresh, Fresh-Among, append-Among, Among-append, last_or, last_or-Among,
  last_or-append,
}

abbrev pub TailOf : ℕ → List ℕ → Type 0
TailOf t [] = Unit
TailOf t (x ∷ xs) = t ≡ last_or x xs

abbrev pub CurrentOf : ℕ → List ℕ → Type 0
CurrentOf c [] = c ≡ 0
CurrentOf c (x ∷ xs) = Among c (x ∷ xs)

-- The tasks of the list, in its order: `next` leads through them, `tail_task` is the last one, and
-- the current task is one of them, or NULL if there is none.
pub record Queue (s : Tasks) (xs : List ℕ) : Type 0 where
  pub forward : Forward s.objects s.head_task xs
  pub distinct : Distinct xs
  pub tail : TailOf s.tail_task xs
  pub current : CurrentOf s.current_task xs

module _ (s : Tasks) (t : ℕ) (nz : t ≢ 0) where
  pub removed-objects : (remove_task_from_linked_list t s).objects ≡ (
      if (s.objects t).prev == 0
      then s.objects
      else put s.objects
          (s.objects t).prev
          (record (s.objects (s.objects t).prev) { next = (s.objects t).next }))
  unfolding remove_task_from_linked_list
  removed-objects = ground arith

  pub removed-head : (remove_task_from_linked_list t s).head_task ≡ (
      if t == s.head_task then ((remove_task_from_linked_list t s).objects t).next else s.head_task)
  unfolding remove_task_from_linked_list
  removed-head = ground arith

  pub removed-tail : (remove_task_from_linked_list t s).tail_task ≡ (
      if t == s.tail_task then ((remove_task_from_linked_list t s).objects t).prev else s.tail_task)
  unfolding remove_task_from_linked_list
  removed-tail = ground arith

  pub removed-current :
      let s' = remove_task_from_linked_list t s in
      s'.current_task ≡ (
        if t == s.current_task
        then (if (s'.objects t).next == 0 then s'.head_task else (s'.objects t).next)
        else s.current_task)
  unfolding remove_task_from_linked_list
  removed-current = ground arith

CurrentOf-Among : (c : ℕ) (xs : List ℕ) → Among c xs → CurrentOf c xs
CurrentOf-Among c [] m = elim m [ ]
CurrentOf-Among c (x ∷ xs) m = m

pub Among-CurrentOf :
    (c : ℕ) (pre : List ℕ) (t : ℕ) (post : List ℕ)
    → CurrentOf c (pre ++ (t ∷ post))
    → Among c (pre ++ (t ∷ post))
Among-CurrentOf c [] t post m = m
Among-CurrentOf c (x ∷ pre) t post m = m

last_or-nil : (d : ℕ) (xs : List ℕ) → last_or d (xs ++ []) ≡ last_or d xs
last_or-nil d [] = refl
last_or-nil d (x ∷ xs) = last_or-nil x xs

-- The next task, or the first one behind the last.
pub CurrentOf-next :
    (f : ℕ → Task) (n h c : ℕ) (pre : List ℕ) (t : ℕ) (post : List ℕ)
    → Forward f n post
    → Forward f h (pre ++ post)
    → Among c (pre ++ (t ∷ post))
    → CurrentOf (if t == c then (if n == 0 then h else n) else c) (pre ++ post)
CurrentOf-next f n h c pre t post w v m = elim (Bool-cases (t == c)) [
  | inl e ↦ rw e (moved pre post w v)
  | inr ne ↦
      rw ne
        (CurrentOf-Among c (pre ++ post) (kept (Among-append c pre (t ∷ post) m) (==_neq _ _ ne)))
]
  where
    moved :
        (pre post : List ℕ)
        → Forward f n post
        → Forward f h (pre ++ post)
        → CurrentOf (if n == 0 then h else n) (pre ++ post)
    moved [] [] w v = rw (==_true _ _ w) v
    moved (x ∷ pre) [] w v = rw (==_true _ _ w) (inl v.0)
    moved pre (y ∷ ys) w v =
        rw (==_false n 0 (λ z. w.1 (sym w.0 ∙ z)))
          (CurrentOf-Among n (pre ++ (y ∷ ys)) (append-Among n pre (y ∷ ys) (inr (inl w.0))))

    kept : (Among c pre) ⊎ (Among c (t ∷ post)) → t ≢ c → Among c (pre ++ post)
    kept (inl a) ne = append-Among c pre post (inl a)
    kept (inr (inl e)) ne = absurd (ne (sym e))
    kept (inr (inr a)) ne = append-Among c pre post (inr a)

pub TailOf-drop :
    (tail p : ℕ) (pre : List ℕ) (t : ℕ) (post : List ℕ)
    → TailOf tail (pre ++ (t ∷ post))
    → p ≡ last_or 0 pre
    → Fresh t post
    → TailOf (if t == tail then p else tail) (pre ++ post)
TailOf-drop tail p [] t [] w e a = tt
TailOf-drop tail p [] t (y ∷ ys) w e a =
    rw (==_false t tail (λ q. Fresh-Among t (last_or y ys) (y ∷ ys) a (last_or-Among y ys) (q ∙ w)))
      w
TailOf-drop tail p (x ∷ pre) t [] w e a =
    rw (==_true t tail (sym (w ∙ last_or-append x t pre []))) (e ∙ sym (last_or-nil x pre))
TailOf-drop tail p (x ∷ pre) t (y ∷ ys) w e a =
    let w' : tail ≡ last_or y ys = w ∙ last_or-append x t pre (y ∷ ys) in
    rw
      (==_false t tail (λ q. Fresh-Among t (last_or y ys) (y ∷ ys) a (last_or-Among y ys) (q ∙ w')))
      (w' ∙ sym (last_or-append x y pre ys))

pub Forward-nonzero :
    (f : ℕ → Task) (h : ℕ) (pre : List ℕ) (t : ℕ) (post : List ℕ)
    → Forward f h (pre ++ (t ∷ post))
    → t ≢ 0
Forward-nonzero f h [] t post w = w.1
Forward-nonzero f h (x ∷ pre) t post w = Forward-nonzero f (f x).next pre t post w.2

pub Forward-rest :
    (f : ℕ → Task) (h : ℕ) (pre : List ℕ) (t : ℕ) (post : List ℕ)
    → Forward f h (pre ++ (t ∷ post))
    → Forward f (f t).next post
Forward-rest f h [] t post w = w.2
Forward-rest f h (x ∷ pre) t post w = Forward-rest f (f x).next pre t post w.2

pub last_or-ne :
    (x : ℕ) (pre : List ℕ) (t : ℕ) (post : List ℕ)
    → Distinct (x ∷ (pre ++ (t ∷ post)))
    → last_or x pre ≢ t
last_or-ne x [] t post ((ne, a), d) = ne
last_or-ne x (y ∷ pre) t post (a, d) = last_or-ne y pre t post d

pub Fresh-last :
    (x : ℕ) (pre : List ℕ) (t : ℕ) (post : List ℕ)
    → Distinct (x ∷ (pre ++ (t ∷ post)))
    → Fresh (last_or x pre) post
Fresh-last x [] t post (a, d) = a.1
Fresh-last x (y ∷ pre) t post (a, d) = Fresh-last y pre t post d

pub last_or_nz :
    (f : ℕ → Task) (h x : ℕ) (pre post : List ℕ)
    → Forward f h (x ∷ (pre ++ post))
    → last_or x pre ≢ 0
last_or_nz f h x [] post w = w.1
last_or_nz f h x (y ∷ pre) post w = last_or_nz f (f x).next y pre post w.2
