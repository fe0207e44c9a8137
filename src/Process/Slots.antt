-- ===== src/Process/Slots.antt =====
-- The table of processes, for src/kernel/arch/x86/task/process.c.
use larva_os.Base.{
  ℕ, zero, suc, ◌+◌, ◌<◌, ◌≡◌, ◌≢◌, refl, ap, ◌∙◌, ◌⊎◌, inl, inr, arith, true, false, ◌==◌, ==_iff,
  ==_true, ==_neq, Bool-cases, slt, is_neg, is_err, u16, Ram, null, neg32, enomem, esrch, eio, some,
  List, [], ◌∷◌, length, get_or, set,
}
use larva_os.Memory.Heap.{Heap}
use larva_os.Memory.Kheap.{kzalloc}
use larva_os.Libc.Memory.{memset}
use larva_os.Task.{make_new_task}
use larva_os.Task.Creation.{made_for}
use larva_os.Process.{
  FileCalls, System, finish_load, free_slot_from, get_process_by_id, load_map, load_opened,
  load_process, load_stack, load_task, max_processes, process_get_free_slot, process_init,
  process_load_binary, process_load_data, process_load_for_slot, process_map_virtual_memory,
  user_program_stack_size, process_bytes,
}

-- `r` is the number of the first free slot, counted from `i` on, or -ENOMEM if none is free.
abbrev pub FirstFree : List ℕ → ℕ → ℕ → Type 0
FirstFree xs i r =
    (((j : ℕ) → j < length xs → get_or xs j null ≢ null) × (r ≡ neg32 enomem))
    ⊎ ((j : ℕ) × (j < length xs)
        × (get_or xs j null ≡ null)
        × ((k : ℕ) → k < j → get_or xs k null ≢ null)
        × (r ≡ i + j))

free_slot-cons :
    (x : ℕ) (xs : List ℕ) (i r : ℕ) → x ≢ null → FirstFree xs (i + 1) r → FirstFree (x ∷ xs) i r
free_slot-cons x xs i r ne (inl (all, e)) = inl (full, e)
  where
    full : (j : ℕ) → j < length (x ∷ xs) → get_or (x ∷ xs) j null ≢ null
    full zero h = ne
    full (suc j) h = all j (omega arith)
free_slot-cons x xs i r ne (inr (j, lt, e, before, er)) =
    inr (suc j, omega arith, e, earlier, omega arith)
  where
    earlier : (k : ℕ) → k < suc j → get_or (x ∷ xs) k null ≢ null
    earlier zero h = ne
    earlier (suc k) h = before k (omega arith)

free_slot_lem : (xs : List ℕ) (i : ℕ) → FirstFree xs i (free_slot_from xs i)
unfolding free_slot_from
free_slot_lem [] i = inl (λ j h. absurd (omega arith), refl)
free_slot_lem (x ∷ xs) i = elim (Bool-cases (x == null)) [
  | inl t ↦ rw t (inr (0, omega arith, (==_iff _ _).0 t, λ k h. absurd (omega arith), omega arith))
  | inr f ↦ rw f (free_slot-cons x xs i _ (==_neq _ _ f) (free_slot_lem xs (i + 1)))
]

-- The table and the caller's variable are as they were.
abbrev Same : {World : Type 0} → System World → System World → Type 0
Same s' s = (s'.processes ≡ s.processes) × (s'.process_out ≡ s.process_out)

-- The process has a task, and the task is its own.
abbrev pub HasTask : {World : Type 0} → System World → ℕ → Type 0
HasTask s p = let task = (s.objects p).task in (task ≢ null) × ((s.tasks.objects task).proc ≡ p)

err_negative : (e : ℕ) → is_err e ≡ true → is_neg e ≡ true
err_negative e h = ground arith

module _ {World : Type 0} (files : FileCalls World) (heap : Heap) (stat : ℕ) where
  finish_load_lem :
      (res p : ℕ) (s : System World)
      → ((finish_load heap res p s).0 ≡ res)
        × Same (finish_load heap res p s).1 s
        × (is_neg res ≡ false → finish_load heap res p s ≡ (res, s))
  unfolding finish_load
  finish_load_lem res p s = ground arith

  load_opened-processes :
      (fd p : ℕ) (s : System World) → Same (load_opened files heap stat fd p s).1 s
  unfolding load_opened
  load_opened-processes fd p s = ground arith

  -- What a loader leaves of the table: it is as it was and the result is negative, or slot `slot`
  -- and the caller's variable hold a new process that knows its number.
  abbrev pub Loads : System World → ℕ → ℕ × System World → Type 0
  Loads s slot (res, s') =
      ((is_neg res ≡ true) × Same s' s)
      ⊎ ((p : ℕ) × (is_neg res ≡ false)
          × (s'.processes ≡ set s.processes slot p)
          × (s'.process_out ≡ p)
          × (p ≢ null)
          × ((s'.objects p).id ≡ u16 slot)
          × HasTask s' p
          × ((s'.objects p).stack_pointer ≢ null))

  Loads-failed :
      (s : System World) (slot res p : ℕ) (s' : System World)
      → is_neg res ≡ true
      → Same s' s
      → Loads s slot (finish_load heap res p s')
  Loads-failed s slot res p s' neg same =
      let f = finish_load_lem res p s' in inl (rw f.0 neg, (f.1.0 ∙ same.0, f.1.1 ∙ same.1))

  map-kept :
      (p : ℕ) (s : System World)
      → let s' = (process_map_virtual_memory p s).1 in
        Same s' s × (s'.objects ≡ s.objects) × (s'.tasks ≡ s.tasks)
  unfolding process_map_virtual_memory
  map-kept p s = ((refl, refl), refl, refl)

  load_map-Loads :
      (slot p : ℕ) (s : System World)
      → p ≢ null
      → (s.objects p).id ≡ u16 slot
      → HasTask s p
      → (s.objects p).stack_pointer ≢ null
      → Loads s slot (load_map files heap stat slot p s)
  unfolding load_map
  load_map-Loads slot p s nz id task stack =
      elim (Bool-cases (is_neg (process_map_virtual_memory p s).0)) [
        | inl t ↦ rw t (Loads-failed s slot _ p _ t (map-kept p s).0)
        | inr f ↦
            let (same, objects, tasks) = map-kept p s in
            rw f (
              rw ((finish_load_lem (process_map_virtual_memory p s).0 p _).2 f) (
                inr (
                  p,
                  f,
                  rw (same.0) refl,
                  refl,
                  nz,
                  rw objects id,
                  rw (objects, tasks) task,
                  rw objects stack,
                )))
      ]

  load_task-Loads :
      (slot p : ℕ) (s : System World)
      → p ≢ null
      → (s.objects p).id ≡ u16 slot
      → (s.objects p).stack_pointer ≢ null
      → Loads s slot (load_task files heap stat slot p s)
  unfolding load_task
  load_task-Loads slot p s nz id stack =
      elim (Bool-cases (is_err (make_new_task s.ram heap p s.tasks).0)) [
        | inl t ↦ rw t (Loads-failed s slot _ p _ (err_negative _ t) (refl, refl))
        | inr f ↦ rw f (
            load_map-Loads slot p _ nz (rw (==_true p p refl) id)
              (rw (==_true p p refl) (made_for s.ram heap p s.tasks f))
              (rw (==_true p p refl) stack))
      ]

  load_stack-Loads :
      (filename slot p : ℕ) (s : System World)
      → p ≢ null
      → Loads s slot (load_stack files heap stat filename slot p s)
  unfolding load_stack
  load_stack-Loads filename slot p s nz =
      elim (Bool-cases ((kzalloc s.ram heap user_program_stack_size).0 == null)) [
        | inl t ↦ rw t (Loads-failed s slot _ p _ refl (refl, refl))
        | inr f ↦ rw f (
            load_task-Loads slot p _ nz (rw (==_true p p refl) refl)
              (rw (==_true p p refl) (==_neq _ _ f)))
      ]

  Loads-shift :
      (s s1 : System World) (slot : ℕ) (out : ℕ × System World)
      → Same s1 s
      → Loads s1 slot out
      → Loads s slot out
  Loads-shift s s1 slot out e (inl (neg, same)) = inl (neg, (same.0 ∙ e.0, same.1 ∙ e.1))
  Loads-shift s s1 slot out e (inr (p, pos, same, given, nz, id, task, stack)) =
      inr (p, pos, same ∙ ap (λ (ps : List ℕ). set ps slot p) (e.0), given, nz, id, task, stack)

  init-processes : (p : ℕ) (s : System World) → Same (process_init p s) s
  unfolding process_init
  init-processes p s = (refl, refl)

  -- Where load_process calls fopen, with the new process cleared in memory, fopen ends.
  abbrev pub Ends : ℕ → System World → Type 0
  Ends filename s =
      let (tmp, m1) = kzalloc s.ram heap process_bytes in
      tmp ≢ null
      → (out : ℕ × Ram × World) × (files.fopen (memset m1 tmp 0 process_bytes) s.world filename
          ≡ some out)

  loaded :
      (filename p : ℕ) (s : System World)
      → (opened : ℕ × Ram × World) → files.fopen s.ram s.world filename ≡ some opened
      → (out : ℕ × System World) × (process_load_data files heap stat filename p s ≡ some out)
        × Same out.1 s
  unfolding process_load_data process_load_binary
  loaded filename p s opened e =
      let s1 = record s { ram = opened.1; world = opened.2 } in
      elim (Bool-cases (slt 0 opened.0)) [
        | inl t ↦ (
          load_opened files heap stat opened.0 p s1,
          rw (e, t) refl,
          load_opened-processes opened.0 p s1,
        )
        | inr f ↦ ((neg32 eio, s1), rw (e, f) refl, (refl, refl))
      ]

  load_for_slot-Loads :
      (filename slot : ℕ) (s : System World)
      → Ends filename s
      → (out : ℕ × System World) × (process_load_for_slot files heap stat filename slot s
          ≡ some out)
        × Loads s slot out
  unfolding process_load_for_slot process_init
  load_for_slot-Loads filename slot s ends = elim (Bool-cases (get_process_by_id slot s == null)) [
    | inr f ↦ (
      finish_load heap (neg32 esrch) null s,
      rw f,
      Loads-failed s slot _ null s refl (refl, refl),
    )
    | inl t ↦ elim (Bool-cases (tmp == null)) [
      | inl t' ↦ (
        finish_load heap (neg32 enomem) null s1,
        rw (t, t') refl,
        Loads-failed s slot _ null s1 refl (refl, refl),
      )
      | inr f' ↦
          let (opened, ended) = ends (==_neq _ _ f') in
          let (out, e, same) = loaded filename tmp (process_init tmp s1) opened ended in
          elim (Bool-cases (is_neg out.0)) [
            | inl neg ↦ (
              finish_load heap out.0 tmp out.1,
              rw (t, f', e, neg) refl,
              Loads-failed s slot _ tmp out.1 neg
                  (same.0 ∙ (init-processes tmp s1).0, same.1 ∙ (init-processes tmp s1).1),
            )
            | inr pos ↦ (
              load_stack files heap stat filename slot tmp out.1,
              rw (t, f', e, pos) refl,
              Loads-shift s out.1 slot (load_stack files heap stat filename slot tmp out.1)
                  (same.0 ∙ (init-processes tmp s1).0, same.1 ∙ (init-processes tmp s1).1)
                  (load_stack-Loads filename slot tmp out.1 (==_neq _ _ f')),
            )
          ]
    ]
  ]
    where
      tmp : ℕ
      tmp = (kzalloc s.ram heap process_bytes).0

      s1 : System World
      s1 = record s { ram = (kzalloc s.ram heap process_bytes).1 }

  -- What load_process makes of the table of processes.
  abbrev pub LoadsFirst : System World → ℕ × System World → Type 0
  LoadsFirst s out =
      (((i : ℕ) → i < max_processes → get_or s.processes i null ≢ null) × (out ≡ (neg32 enomem, s)))
      ⊎ ((i : ℕ) × (i < max_processes)
          × (get_or s.processes i null ≡ null)
          × ((j : ℕ) → j < i → get_or s.processes j null ≢ null)
          × Loads s i out)

  -- Where fopen of the file ends, in the call that load_process makes, load_process ends; fstat and
  -- fread are taken to return. If no slot is free it returns -ENOMEM and changes nothing. Otherwise
  -- either its result is negative, and the table of processes and the caller's variable are as they
  -- were; or the result is not negative, and the first free slot and the caller's variable hold the
  -- new process, which knows its number and has a stack and a task that belongs to it.
  pub load_process_lem :
      (filename : ℕ) (s : System World)
      → Ends filename s
      → length s.processes ≡ max_processes
      → (out : ℕ × System World) × (load_process files heap stat filename s ≡ some out)
        × LoadsFirst s out
  unfolding load_process process_get_free_slot
  load_process_lem filename s ends count = at (free_slot_lem s.processes 0)
    where
      at :
          FirstFree s.processes 0 (free_slot_from s.processes 0)
          → (out : ℕ × System World) × (load_process files heap stat filename s ≡ some out)
            × LoadsFirst s out
      at (inl (all, e)) =
          ((neg32 enomem, s), rw e refl, inl (λ i h. all i (omega (arith, count)), refl))
      at (inr (i, lt, null_at, before, e)) =
          let h : i < max_processes = omega (arith, count) in
          let slot : free_slot_from s.processes 0 ≡ i = omega (arith, e) in
          let small : is_neg i ≡ false = ground arith in
          let (out, eq, loads) = load_for_slot-Loads filename i s ends in
          (out, rw (slot, small) eq, inr (i, h, null_at, before, loads))
