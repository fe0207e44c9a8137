-- ===== src/Task/Creation.antt =====
-- New tasks, for make_new_task of src/kernel/arch/x86/task/task.c.
use larva_os.Base.{
  is_err, true, false, ℕ, ◌≡◌, ◌≢◌, refl, sym, ap, subst, ◌∙◌, ◌⊎◌, inl, inr, if◌then◌else◌, ◌==◌,
  Bool-cases, ==_iff, ==_true, ==_false, ==_neq, List, [], ◌∷◌, ◌++◌, Ram, neg32, enomem, eio,
}
use larva_os.Memory.Heap.{Heap}
use larva_os.Memory.Kheap.{kzalloc}
use larva_os.Memory.Paging.{make_new_4GB_virtual_memory_address_space}
use larva_os.Task.{
  Task, Tasks, append_task, make_new_task, program_virtual_address, put, task_init, fail_task,
  release_task, remove_task_from_linked_list, task_page_flags, zero_registers, zero_task,
  user_data_segment, user_code_segment, program_virtual_stack_address_start,
}
use larva_os.Task.List.{Forward, Fresh, Fresh-Among, last_or, last_or-Among, put_self}
use larva_os.Task.Queues.{
  CurrentOf, TailOf, removed-current, removed-head, removed-objects, removed-tail,
}
use larva_os.Task.Append.{TwoWay, append_task-TwoWay, append_task-kept, put-TwoWay}

Fresh-CurrentOf : (t c : ℕ) (xs : List ℕ) → t ≢ 0 → Fresh t xs → CurrentOf c xs → t ≢ c
Fresh-CurrentOf t c [] nz a m q = nz (q ∙ m)
Fresh-CurrentOf t c (x ∷ xs) nz a m q = Fresh-Among t c (x ∷ xs) a m q

Fresh-head : (f : ℕ → Task) (t h : ℕ) (xs : List ℕ) → t ≢ 0 → Fresh t xs → Forward f h xs → t ≢ h
Fresh-head f t h [] nz a w q = nz (q ∙ w)
Fresh-head f t h (x ∷ xs) nz (ne, a) w q = ne (q ∙ w.0)

TailOf-other :
    (t tail p : ℕ) (xs : List ℕ)
    → Fresh t xs
    → TailOf tail xs
    → TailOf (if t == tail then p else tail) xs
TailOf-other t tail p [] a w = tt
TailOf-other t tail p (x ∷ xs) a w =
    rw (==_false t tail (λ q. Fresh-Among t (last_or x xs) (x ∷ xs) a (last_or-Among x xs) (q ∙ w)))
      w

-- A task that never entered the list leaves it as it was.
remove-TwoWay_other :
    (s : Tasks) (xs : List ℕ) (t : ℕ)
    → TwoWay s xs
    → t ≢ 0
    → Fresh t xs
    → (s.objects t).prev ≡ 0
    → TwoWay (remove_task_from_linked_list t s) xs
remove-TwoWay_other s xs t w nz a b = record {
  queue = record {
    forward =
        rw
          (
            removed-head s t nz,
            same,
            ==_false t s.head_task (Fresh-head s.objects t s.head_task xs nz a w.queue.forward),
          )
          w.queue.forward;
    distinct = w.queue.distinct;
    tail = rw (removed-tail s t nz) (TailOf-other t s.tail_task _ xs a w.queue.tail);
    current =
        rw
          (
            removed-current s t nz,
            ==_false t s.current_task (Fresh-CurrentOf t s.current_task xs nz a w.queue.current),
          )
          w.queue.current;
  };
  back = rw same w.back;
}
  where
    same : (remove_task_from_linked_list t s).objects ≡ s.objects
    same = removed-objects s t nz ∙ rw (==_true (s.objects t).prev 0 b)

module _ (m : Ram) (heap : Heap) (proc : ℕ) where
  abbrev task_block : ℕ × Ram
  task_block = kzalloc m heap 64

  abbrev page_block : ℕ × Ram
  page_block = make_new_4GB_virtual_memory_address_space task_block.1 heap task_page_flags

  -- What make_new_task makes of the list `xs`, by the two allocations.
  abbrev pub Makes : Tasks → List ℕ → ℕ × Ram × Tasks → Type 0
  Makes s xs (r, m', s') =
      ((task_block.0 ≡ 0) × (r ≡ neg32 enomem) × (m' ≡ task_block.1) × (s' ≡ s))
      ⊎ ((task_block.0 ≢ 0) × (page_block.0 ≡ 0) × (r ≡ neg32 eio) × TwoWay s' xs)
      ⊎ ((task_block.0 ≢ 0)
          × (page_block.0 ≢ 0)
          × (r ≡ task_block.0)
          × TwoWay s' (xs ++ (r ∷ []))
          × ((s'.objects r).proc ≡ proc)
          × ((s'.objects r).page_directory ≡ page_block.0)
          × ((s'.objects r).registers ≡ record {
            edi = 0;
            esi = 0;
            ebp = 0;
            ebx = 0;
            edx = 0;
            ecx = 0;
            eax = 0;
            ip = 0x400000;
            cs = 0x1b;
            flags = 0;
            esp = 0x3ff000;
            ss = 0x23;
          }))

  abbrev blank_task : Task
  blank_task = record zero_task { page_directory = page_block.0 }

  abbrev ready_task : Task
  ready_task = record zero_task {
    page_directory = page_block.0;
    registers = record zero_registers {
      ip = program_virtual_address;
      ss = user_data_segment;
      cs = user_code_segment;
      esp = program_virtual_stack_address_start;
    };
    proc = proc;
  }

  abbrev stored : Tasks → Task → Tasks
  stored s k = record s { objects = put s.objects task_block.0 k }

  made_nothing :
      (s : Tasks) → task_block.0 ≡ 0 → make_new_task m heap proc s ≡ (neg32 enomem, task_block.1, s)
  unfolding make_new_task fail_task release_task
  made_nothing s e = rw (==_true _ _ e) refl

  init_ok :
      (s : Tasks)
      → page_block.0 ≢ 0
      → task_init task_block.1 heap task_block.0 proc s ≡ (0, page_block.1, stored s ready_task)
  unfolding task_init
  init_ok s ne = rw (==_false _ _ ne) refl

  init_failed :
      (s : Tasks)
      → page_block.0 ≡ 0
      → task_init task_block.1 heap task_block.0 proc s
        ≡ (neg32 eio, page_block.1, stored s blank_task)
  unfolding task_init
  init_failed s e = rw (==_true _ _ e) refl

  made :
      (s : Tasks)
      → task_block.0 ≢ 0
      → page_block.0 ≢ 0
      → make_new_task m heap proc s
        ≡ (task_block.0, page_block.1, append_task task_block.0 (stored s ready_task))
  unfolding make_new_task
  made s ne nd = rw (==_false _ _ ne, init_ok s nd) refl

  unmade :
      (s : Tasks)
      → task_block.0 ≢ 0
      → page_block.0 ≡ 0
      → make_new_task m heap proc s ≡ (
        neg32 eio,
        (release_task page_block.1 heap task_block.0 (stored s blank_task)).0,
        remove_task_from_linked_list task_block.0 (stored s blank_task),
      )
  unfolding make_new_task fail_task release_task
  unmade s ne e = rw (==_false _ _ ne, init_failed s e) refl

  -- Where the result is not an error it is a task, and the task is that of the process.
  pub made_for :
      (s : Tasks)
      → is_err (make_new_task m heap proc s).0 ≡ false
      → let (r, m', s') = make_new_task m heap proc s in (r ≢ 0) × ((s'.objects r).proc ≡ proc)
  made_for s good = elim (Bool-cases (task_block.0 == 0)) [
    | inl t ↦
        let bad : is_err (make_new_task m heap proc s).0 ≡ true =
          ap (λ (out : ℕ × Ram × Tasks). is_err out.0) (made_nothing s ((==_iff _ _).0 t)) in
        cc (bad, good)
    | inr f ↦
        let ne = ==_neq _ _ f in
        elim (Bool-cases (page_block.0 == 0)) [
          | inl t ↦
              let bad : is_err (make_new_task m heap proc s).0 ≡ true =
                ap (λ (out : ℕ × Ram × Tasks). is_err out.0) (unmade s ne ((==_iff _ _).0 t)) in
              cc (bad, good)
          | inr g ↦
              subst (λ (out : ℕ × Ram × Tasks). (out.0 ≢ 0) × ((out.2.objects out.0).proc ≡ proc))
                (sym (made s ne (==_neq _ _ g)))
                (
                  ne,
                  (append_task-kept (stored s ready_task) task_block.0).0
                      ∙ ap (λ (k : Task). k.proc) (put_self s.objects task_block.0 ready_task),
                )
        ]
  ]

  -- From a list of tasks to which the heap's answer does not belong, make_new_task either returns
  -- -ENOMEM and changes no task, or returns -EIO and leaves the list as it was, or puts the new
  -- task behind the last one, for the process, with its directory, and with registers that are all
  -- 0 but for the entry point 0x400000, the stack 0x3ff000 and the user's segments 0x1b and 0x23.
  pub make_new_task_lem :
      (s : Tasks) (xs : List ℕ)
      → TwoWay s xs
      → Fresh task_block.0 xs
      → Makes s xs (make_new_task m heap proc s)
  make_new_task_lem s xs w a = elim (Bool-cases (task_block.0 == 0)) [
    | inl t ↦
        let e = (==_iff _ _).0 t in
        subst (Makes s xs) (sym (made_nothing s e)) (inl (e, refl, refl, refl))
    | inr f ↦
        let ne = ==_neq _ _ f in
        let w' = λ (k : Task). put-TwoWay s xs task_block.0 k w a in
        elim (Bool-cases (page_block.0 == 0)) [
          | inl t ↦
              let e = (==_iff _ _).0 t in
              subst (Makes s xs) (sym (unmade s ne e)) (
                inr (
                  inl (
                    ne,
                    e,
                    refl,
                    remove-TwoWay_other (stored s blank_task) xs task_block.0 (w' blank_task) ne a
                        (ap (λ (k : Task). k.prev) (put_self s.objects task_block.0 blank_task)),
                  )))
          | inr g ↦
              let nd = ==_neq _ _ g in
              let kept = append_task-kept (stored s ready_task) task_block.0 in
              let self = put_self s.objects task_block.0 ready_task in
              subst (Makes s xs) (sym (made s ne nd)) (
                inr (
                  inr (
                    ne,
                    nd,
                    refl,
                    append_task-TwoWay (stored s ready_task) xs task_block.0 (w' ready_task) ne a
                        (ap (λ (k : Task). k.next) self) (ap (λ (k : Task). k.prev) self),
                    kept.0 ∙ ap (λ (k : Task). k.proc) self,
                    kept.1 ∙ ap (λ (k : Task). k.page_directory) self,
                    kept.2 ∙ ap (λ (k : Task). k.registers) self,
                  )))
        ]
  ]
