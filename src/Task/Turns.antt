-- ===== src/Task/Turns.antt =====
-- Tasks that take turns, for src/kernel/arch/x86/task/task.c.
use larva_os.Base.{
  append-nil, ℕ, zero, suc, ◌+◌, ◌<◌, ◌≡◌, refl, sym, ◌∙◌, ap, subst, arith, ◌⊎◌, inl, inr,
  if◌then◌else◌, ◌==◌, ==_true, ==_false, List, [], ◌∷◌, ◌++◌, length, length-append, Ram,
}
use larva_os.Task.{Task, Tasks, get_next_task, task_switch}
use larva_os.Task.List.{Among, Among-append, Forward}
use larva_os.Task.Queues.{CurrentOf, Queue}

-- `task_switch(get_next_task())`, `k` times.
unfoldable pub turns : Ram → ℕ → Tasks → Tasks
turns m zero s = s
turns m (suc k) s = let (_, s') = task_switch m (get_next_task s) s in turns m k s'

module _ (f : ℕ → Task) (h : ℕ) where
  next_of : ℕ → ℕ
  next_of c = if (f c).next == 0 then h else (f c).next

  -- The task that has its turn after `k` turns from `c` on.
  after_turns : ℕ → ℕ → ℕ
  after_turns zero c = c
  after_turns (suc k) c = after_turns k (next_of c)

  Reaches : ℕ → ℕ → ℕ → Type 0
  Reaches n x c = (k : ℕ) × (k < n) × (after_turns k x ≡ c)

  later-Reaches : (n x c : ℕ) → Reaches n (next_of x) c → Reaches (suc n) x c
  unfolding Reaches after_turns
  later-Reaches n x c (k, lt, e) = (suc k, omega arith, e)

  next_of-inner : (x y : ℕ) (ys : List ℕ) → Forward f (f x).next (y ∷ ys) → next_of x ≡ (f x).next
  unfolding next_of
  next_of-inner x y ys w = rw (==_false (f x).next 0 (λ z. w.1 (sym w.0 ∙ z))) refl

  -- From the start of a list each of its tasks has its turn, before the list is over.
  reach_part :
      (x c : ℕ) (pre rest : List ℕ)
      → Forward f x (pre ++ rest)
      → Among c pre
      → Reaches (length pre) x c
  unfolding Reaches after_turns
  reach_part x c [] rest w a = elim a [ ]
  reach_part x c (y ∷ pre) rest (e, nz, w) (inl here) = (0, omega arith, e ∙ sym here)
  reach_part x c (y ∷ []) rest (e, nz, w) (inr a) = elim a [ ]
  reach_part x c (y ∷ z ∷ pre) rest (e, nz, w) (inr a) = later-Reaches (suc (length pre)) x c (
      subst (λ v. Reaches (suc (length pre)) v c)
        (sym (ap next_of e ∙ next_of-inner y z (pre ++ rest) w))
        (reach_part (f y).next c (z ∷ pre) rest w a))

  -- Behind the last task the turn goes to the first one.
  reach_around :
      (x c n : ℕ) (ys : List ℕ)
      → Forward f x (x ∷ ys)
      → Reaches n h c
      → Reaches (suc (length ys) + n) x c
  unfolding Reaches after_turns next_of
  reach_around x c n [] (e, nz, w) (k, lt, at) = (suc k, omega arith, rw (==_true _ _ w) at)
  reach_around x c n (y ∷ ys) (e, nz, w) r =
      let (k, lt, at) = reach_around y c n ys (refl, w.1, w.2) r in
      (suc k, omega arith, ap (after_turns k) (next_of-inner x y ys w ∙ w.0) ∙ at)

-- The list from one of its tasks on.
Behind : (ℕ → Task) → ℕ → List ℕ → Type 0
Behind f c xs = (pre : List ℕ) × (ys : List ℕ) × (xs ≡ pre ++ (c ∷ ys)) × Forward f c (c ∷ ys)

Behind-Among : (f : ℕ → Task) (h c : ℕ) (xs : List ℕ) → Forward f h xs → Among c xs → Behind f c xs
unfolding Behind
Behind-Among f h c [] w a = elim a [ ]
Behind-Among f h c (x ∷ xs) (e, nz, w) (inl here) = (
  [],
  xs,
  ap (λ v. v ∷ xs) (sym here),
  (refl, (λ z. nz (sym here ∙ z)), subst (λ v. Forward f (f v).next xs) (sym here) w),
)
Behind-Among f h c (x ∷ xs) (e, nz, w) (inr a) =
    let (pre, ys, same, v) = Behind-Among f (f x).next c xs w a in
    (x ∷ pre, ys, ap (λ zs. x ∷ zs) same, v)

turns-current :
    (m : Ram) (k : ℕ) (s : Tasks)
    → (turns m k s).current_task ≡ after_turns s.objects s.head_task k s.current_task
unfolding turns after_turns next_of get_next_task task_switch
turns-current m zero s = refl
turns-current m (suc k) s = turns-current m k (task_switch m (get_next_task s) s).1

Current-Among : (c t : ℕ) (xs : List ℕ) → CurrentOf c xs → Among t xs → Among c xs
Current-Among c t [] cur a = elim a [ ]
Current-Among c t (x ∷ xs) cur a = cur

-- In the parts before and behind the current task, every task is reached in time.
reach_in :
    (f : ℕ → Task) (h x c : ℕ) (pre ys : List ℕ)
    → Forward f h (pre ++ (x ∷ ys))
    → Forward f x (x ∷ ys)
    → (Among c pre) ⊎ (Among c (x ∷ ys))
    → Reaches f h (length (pre ++ (x ∷ ys))) x c
unfolding Reaches
reach_in f h x c pre ys all w (inl a) =
    let (k, lt, e) =
      reach_around f h x c (length pre) ys w (reach_part f h h c pre (x ∷ ys) all a) in
    (k, omega (arith, length-append pre (x ∷ ys)), e)
reach_in f h x c pre ys all w (inr a) =
    let tail : Forward f x ((x ∷ ys) ++ []) = subst (Forward f x) (sym (append-nil (x ∷ ys))) w in
    let (k, lt, e) = reach_part f h x c (x ∷ ys) [] tail a in
    (k, omega (arith, length-append pre (x ∷ ys)), e)

-- In a queue, switching to the task that get_next_task returns, again and again, makes each task
-- the current one, after fewer switches than there are tasks.
pub every_task_has_turn :
    (m : Ram) (s : Tasks) (xs : List ℕ) (c : ℕ)
    → Queue s xs
    → Among c xs
    → (k : ℕ) × (k < length xs) × ((turns m k s).current_task ≡ c)
unfolding Behind Reaches
every_task_has_turn m s xs c q a =
    let f = s.objects in
    let x = s.current_task in
    let here = Current-Among x c xs q.current a in
    let (pre, ys, same, w) = Behind-Among f s.head_task x xs q.forward here in
    let all : Forward f s.head_task (pre ++ (x ∷ ys)) =
      subst (Forward f s.head_task) same q.forward in
    let (k, lt, e) =
      reach_in f s.head_task x c pre ys all w
        (Among-append c pre (x ∷ ys) (subst (Among c) same a)) in
    (k, omega (arith, lt, ap length same), turns-current m k s ∙ e)
