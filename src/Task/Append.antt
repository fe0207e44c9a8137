-- ===== src/Task/Append.antt =====
-- A task that is appended to the list, for src/kernel/arch/x86/task/task.c.
use larva_os.Base.{
  ℕ, ◌≡◌, ◌≢◌, refl, sym, ◌∙◌, inl, inr, arith, ==_true, ==_false, List, [], ◌∷◌, ◌++◌,
}
use larva_os.Task.{Task, Tasks, append_task, put}
use larva_os.Task.List.{
  Back, Back-put, Distinct, Forward-append, Forward-put, Forward-put_same, Fresh, append-Among,
  append-Fresh, last_or, last_or-append,
}
use larva_os.Task.Queues.{CurrentOf, Queue}

Distinct-append : (xs : List ℕ) (t : ℕ) → Distinct xs → Fresh t xs → Distinct (xs ++ (t ∷ []))
Distinct-append [] t d a = (tt, tt)
Distinct-append (x ∷ xs) t (b, d) (ne, a) =
    (append-Fresh x xs (t ∷ []) b ((λ e. ne (sym e)), tt), Distinct-append xs t d a)

Back-append :
    (f : ℕ → Task) (p : ℕ) (xs : List ℕ) (t : ℕ)
    → Back f p xs
    → (f t).prev ≡ last_or p xs
    → Back f p (xs ++ (t ∷ []))
Back-append f p [] t b e = (e, tt)
Back-append f p (x ∷ xs) t (h, b) e = (h, Back-append f x xs t b e)

CurrentOf-append :
    (c t : ℕ) (x : ℕ) (xs : List ℕ) → CurrentOf c (x ∷ xs) → CurrentOf c (x ∷ (xs ++ (t ∷ [])))
CurrentOf-append c t x xs m = append-Among c (x ∷ xs) (t ∷ []) (inl m)

-- A queue whose `prev` fields are all right.
pub record TwoWay (s : Tasks) (xs : List ℕ) : Type 0 where
  pub queue : Queue s xs
  pub back : Back s.objects 0 xs

pub append_task-TwoWay :
    (s : Tasks) (xs : List ℕ) (t : ℕ)
    → TwoWay s xs
    → t ≢ 0
    → Fresh t xs
    → (s.objects t).next ≡ 0
    → (s.objects t).prev ≡ 0
    → TwoWay (append_task t s) (xs ++ (t ∷ []))
unfolding append_task
append_task-TwoWay s [] t w nz a e b = rw (==_true s.head_task 0 w.queue.forward) (record {
  queue = record { forward = (refl, nz, e); distinct = (tt, tt); tail = refl; current = inl refl };
  back = (b, tt);
})
append_task-TwoWay s (x ∷ xs) t w nz a e b =
    rw (==_false s.head_task 0 (λ z. q.forward.1 (sym q.forward.0 ∙ z)), q.tail)
      (record {
        queue = record {
          forward =
              Forward-put_same f1 t (record (f1 t) { prev = last_or x xs }) s.head_task
                (x ∷ (xs ++ (t ∷ []))) refl
                (Forward-append s.objects s.head_task x xs t q.distinct q.forward nz a e);
          distinct = Distinct-append (x ∷ xs) t q.distinct a;
          tail = sym (last_or-append x t xs []);
          current = CurrentOf-append s.current_task t x xs q.current;
        };
        back =
            Back-append (put f1 t (record (f1 t) { prev = last_or x xs })) 0 (x ∷ xs) t
              (Back-put f1 t _ 0 (x ∷ xs) (inr a)
                (Back-put s.objects (last_or x xs) _ 0 (x ∷ xs) (inl refl) w.back))
              (rw (==_true t t refl));
      })
  where
    q : Queue s (x ∷ xs)
    q = w.queue

    f1 : ℕ → Task
    f1 = put s.objects (last_or x xs) (record (s.objects (last_or x xs)) { next = t })

-- Only the links of a task change when it enters the list.
pub append_task-kept :
    (s : Tasks) (t : ℕ)
    → let k = (append_task t s).objects t in
      (k.proc ≡ (s.objects t).proc)
      × (k.page_directory ≡ (s.objects t).page_directory)
      × (k.registers ≡ (s.objects t).registers)
unfolding append_task
append_task-kept s t = ground arith

pub put-TwoWay :
    (s : Tasks) (xs : List ℕ) (t : ℕ) (k : Task)
    → TwoWay s xs
    → Fresh t xs
    → TwoWay (record s { objects = put s.objects t k }) xs
put-TwoWay s xs t k w a = record {
  queue = record {
    forward = Forward-put s.objects t k s.head_task xs a w.queue.forward;
    distinct = w.queue.distinct;
    tail = w.queue.tail;
    current = w.queue.current;
  };
  back = Back-put s.objects t k 0 xs (inr a) w.back;
}
