-- ===== src/Task/Scheduling.antt =====
-- Tasks enter and leave the list, for src/kernel/arch/x86/task/task.c.
use larva_os.Base.{
  ℕ, ◌≡◌, ◌≢◌, refl, sym, ap, subst, ◌∙◌, if◌then◌else◌, ◌==◌, ==_true, ==_false, List, [], ◌∷◌,
  ◌++◌,
}
use larva_os.Task.{Task, Tasks, put, remove_task_from_linked_list}
use larva_os.Task.List.{
  Distinct, Distinct-drop, Forward, Forward-cut, Forward-put, Fresh-append, last_or, put_ne,
}
use larva_os.Task.Queues.{
  Queue, removed-objects, removed-head, removed-tail, removed-current, Among-CurrentOf,
  CurrentOf-next, TailOf-drop, Forward-nonzero, Forward-rest, last_or-ne, Fresh-last, last_or_nz,
}

abbrev Shortened : Tasks → List ℕ → ℕ → List ℕ → Type 0
Shortened s pre t post =
    let s' = remove_task_from_linked_list t s in
    (s'.objects t ≡ s.objects t)
    × Forward s'.objects (s.objects t).next post
    × Forward s'.objects s'.head_task (pre ++ post)

removed-Shortened :
    (s : Tasks) (pre : List ℕ) (t : ℕ) (post : List ℕ)
    → t ≢ 0
    → Distinct (pre ++ (t ∷ post))
    → Forward s.objects s.head_task (pre ++ (t ∷ post))
    → (s.objects t).prev ≡ last_or 0 pre
    → Shortened s pre t post
removed-Shortened s [] t post nz d (e, _, w) back =
    (rw same, rw same w, rw (removed-head s t nz, same, ==_true t s.head_task (sym e)) w)
  where
    same : (remove_task_from_linked_list t s).objects ≡ s.objects
    same = removed-objects s t nz ∙ rw (==_true (s.objects t).prev 0 back)
removed-Shortened s (x ∷ pre) t post nz d w back = (
  rw same (put_ne s.objects p t _ ne),
  rw same (
      Forward-put s.objects p _ (s.objects t).next post (Fresh-last x pre t post d)
        (Forward-rest s.objects s.head_task (x ∷ pre) t post w)),
  subst (λ (h : ℕ). Forward (remove_task_from_linked_list t s).objects h (x ∷ (pre ++ post)))
      (sym (removed-head s t nz ∙ rw (==_false t s.head_task not_first)))
      (subst (λ (f : ℕ → Task). Forward f s.head_task (x ∷ (pre ++ post))) (sym same)
        (Forward-cut s.objects s.head_task x pre t post d w)),
)
  where
    p : ℕ
    p = last_or x pre

    ne : last_or x pre ≢ t
    ne = last_or-ne x pre t post d

    p_nz : last_or x pre ≢ 0
    p_nz = last_or_nz s.objects s.head_task x pre (t ∷ post) w

    same :
        (remove_task_from_linked_list t s).objects
        ≡ put s.objects
            (last_or x pre)
            (record (s.objects (last_or x pre)) { next = (s.objects t).next })
    same = removed-objects s t nz ∙ rw (back, ==_false (last_or x pre) 0 p_nz)

    not_first : t ≢ s.head_task
    not_first q = (Fresh-append x pre (t ∷ post) d.0).1.0 (sym (q ∙ w.0))

-- Where `pre` stood before a task and `post` behind it: the task that is next, or the first one, or
-- NULL if there is no other.
abbrev pub successor : List ℕ → List ℕ → ℕ
successor pre (y ∷ ys) = y
successor (x ∷ pre) [] = x
successor [] [] = 0

successor_lem :
    (f : ℕ → Task) (n h : ℕ) (pre post : List ℕ)
    → Forward f n post
    → Forward f h (pre ++ post)
    → (if n == 0 then h else n) ≡ successor pre post
successor_lem f n h [] [] w v = rw (==_true _ _ w) v
successor_lem f n h (x ∷ pre) [] w v = rw (==_true _ _ w) (v.0)
successor_lem f n h pre (y ∷ ys) w v = rw (==_false n 0 (λ z. w.1 (sym w.0 ∙ z))) (w.0)

-- A task whose `prev` is right leaves the list: the others keep their order, and the current task
-- stays, unless it was the one that leaves: then the next task is, or the first one if it was the
-- last, or NULL if there is no other.
pub remove-Queue :
    (s : Tasks) (pre : List ℕ) (t : ℕ) (post : List ℕ)
    → Queue s (pre ++ (t ∷ post))
    → (s.objects t).prev ≡ last_or 0 pre
    → let s' = remove_task_from_linked_list t s in
      Queue s' (pre ++ post)
      × (s'.current_task ≡ (if t == s.current_task then successor pre post else s.current_task))
remove-Queue s pre t post q back = (
  record {
    forward = short.2;
    distinct = (Distinct-drop pre t post q.distinct).0;
    tail = rw (removed-tail s t nz) (
        TailOf-drop s.tail_task ((s'.objects t).prev) pre t post q.tail
          (ap (λ (k : Task). k.prev) short.0 ∙ back)
          (Fresh-append t pre post (Distinct-drop pre t post q.distinct).1).1);
    current = rw (removed-current s t nz) (
        CurrentOf-next s'.objects (s'.objects t).next s'.head_task s.current_task pre t post
          (rw short.0 short.1) short.2 (Among-CurrentOf s.current_task pre t post q.current));
  },
  removed-current s t nz
      ∙ ap (λ (c : ℕ). if t == s.current_task then c else s.current_task)
          (ap (λ (k : Task). if k.next == 0 then s'.head_task else k.next) short.0
            ∙ successor_lem s'.objects (s.objects t).next s'.head_task pre post short.1 short.2),
)
  where
    s' : Tasks
    s' = remove_task_from_linked_list t s

    nz : t ≢ 0
    nz = Forward-nonzero s.objects s.head_task pre t post q.forward

    short : Shortened s pre t post
    short = removed-Shortened s pre t post nz q.distinct q.forward back

Distinct-rest : (pre xs : List ℕ) → Distinct (pre ++ xs) → Distinct xs
Distinct-rest [] xs d = d
Distinct-rest (x ∷ pre) xs d = Distinct-rest pre xs d.1

removed-at :
    (s : Tasks) (t q : ℕ)
    → t ≢ 0
    → (s.objects t).prev ≢ 0
    → (remove_task_from_linked_list t s).objects q
      ≡ put s.objects
          (s.objects t).prev
          (record (s.objects (s.objects t).prev) { next = (s.objects t).next })
          q
removed-at s t q nz ne =
    ap (λ (f : ℕ → Task). f q) (removed-objects s t nz) ∙ rw (==_false (s.objects t).prev 0 ne)

-- Where `b` follows `a`, removing `a` leaves the `prev` of `b` as it was. So if both are removed,
-- first `a` and then `b`, the task before them still leads to `b`, and what followed `b` is linked
-- behind `a`, which is no longer in the list.
pub remove_next_stale :
    (s : Tasks) (pre : List ℕ) (p a b : ℕ) (post : List ℕ)
    → Queue s (pre ++ (p ∷ (a ∷ (b ∷ post))))
    → (s.objects a).prev ≡ p
    → (s.objects b).prev ≡ a
    → let s1 = remove_task_from_linked_list a s in
      let s2 = remove_task_from_linked_list b s1 in
      ((s1.objects b).prev ≡ a)
      × ((s2.objects p).next ≡ b)
      × ((s2.objects a).next ≡ (s.objects b).next)
remove_next_stale s pre p a b post q ea eb =
    let (_, a_nz, (ab, b_nz, _)) =
      Forward-rest s.objects s.head_task pre p (a ∷ (b ∷ post)) q.forward in
    let p_nz = Forward-nonzero s.objects s.head_task pre p (a ∷ (b ∷ post)) q.forward in
    let ((pa, (pb, _)), _) = Distinct-rest pre (p ∷ (a ∷ (b ∷ post))) q.distinct in
    let s1 = remove_task_from_linked_list a s in
    let at_p : (s1.objects p).next ≡ b =
      rw (removed-at s a p a_nz (λ z. p_nz (sym ea ∙ z)), ea, ==_true p p refl) ab in
    let at_b : (s1.objects b).prev ≡ a =
      rw (removed-at s a b a_nz (λ z. p_nz (sym ea ∙ z)), ea, ==_false b p (λ z. pb (sym z))) eb in
    let linked : (s1.objects b).prev ≢ 0 = λ z. a_nz (sym at_b ∙ z) in
    let next_b : (s1.objects b).next ≡ (s.objects b).next =
      rw (removed-at s a b a_nz (λ z. p_nz (sym ea ∙ z)), ea, ==_false b p (λ z. pb (sym z)))
        refl in
    (
      at_b,
      rw (removed-at s1 b p b_nz linked, at_b, ==_false p a pa) at_p,
      rw (removed-at s1 b a b_nz linked, at_b, ==_true a a refl) next_b,
    )
