-- ===== src/Task/Tests.antt =====
-- Lists of tasks at concrete addresses, for src/kernel/arch/x86/task/task.c.
use larva_os.Base.{
  ℕ, ◌≡◌, ◌≢◌, ◌<◌, refl, sym, inl, inr, arith, if◌then◌else◌, ◌==◌, List, [], ◌∷◌, some, Option,
}
use larva_os.Memory.Kheap.{kzalloc}
use larva_os.Memory.Kheap.Booted.{booted, booted-Shows}
use larva_os.Memory.Kheap.Laws.{kernel_heap, kmalloc-InHeap, kzalloc_zeroed}
use larva_os.Memory.Heap.Layout.{gaps}
use larva_os.Task.{
  InterruptFrame, Tasks, load_user_task_page, make_new_task, remove_task_from_linked_list,
  run_first_task, task_save_state, zero_task,
}
use larva_os.Task.Creation.{Makes, make_new_task_lem}
use larva_os.Task.Append.{TwoWay}
use larva_os.Task.Scheduling.{remove-Queue, remove_next_stale}
use larva_os.Task.Queues.{Queue}
use larva_os.Task.Turns.{every_task_has_turn, turns}
use larva_os.Memory.Heap.Small.{zeros}

-- Four tasks, at 0x1000 to 0x4000, of which the last is running.
abbrev four : Tasks
four = record {
  objects = λ q.
      if q == 0x1000
      then record zero_task { next = 0x2000 }
      else if q == 0x2000
      then record zero_task { next = 0x3000; prev = 0x1000 }
      else if q == 0x3000
      then record zero_task { next = 0x4000; prev = 0x2000 }
      else if q == 0x4000
      then record zero_task { prev = 0x3000 }
      else zero_task;
  current_task = 0x4000;
  tail_task = 0x4000;
  head_task = 0x1000;
  directories = record { kernel_directory = 0; current_directory = 0; cr3 = 0 };
}

abbrev numbers : List ℕ
numbers = 0x1000 ∷ (0x2000 ∷ (0x3000 ∷ (0x4000 ∷ [])))

four-Queue : Queue four numbers
four-Queue = record {
  forward = omega arith;
  distinct = omega arith;
  tail = refl;
  current = omega arith;
}

four-TwoWay : TwoWay four numbers
four-TwoWay = record { queue = four-Queue; back = omega arith }

-- The running task ends, and the first one is next.
remove-Queue_example :
    let s' = remove_task_from_linked_list 0x4000 four in
    Queue s' (0x1000 ∷ (0x2000 ∷ (0x3000 ∷ []))) × (s'.current_task ≡ 0x1000)
remove-Queue_example =
    remove-Queue four (0x1000 ∷ (0x2000 ∷ (0x3000 ∷ []))) 0x4000 [] four-Queue refl

remove_next_stale_example :
    let s1 = remove_task_from_linked_list 0x2000 four in
    let s2 = remove_task_from_linked_list 0x3000 s1 in
    ((s1.objects 0x3000).prev ≡ 0x2000)
    × ((s2.objects 0x1000).next ≡ 0x3000)
    × ((s2.objects 0x2000).next ≡ 0x4000)
remove_next_stale_example =
    remove_next_stale four [] 0x1000 0x2000 0x3000 (0x4000 ∷ []) four-Queue refl refl

-- From the last task the turn comes to the third after three switches.
every_task_has_turn_example : (k : ℕ) × (k < 4) × ((turns zeros k four).current_task ≡ 0x3000)
every_task_has_turn_example =
    every_task_has_turn zeros four numbers 0x3000 four-Queue (inr (inr (inl refl)))

in_heap : (k : ℕ) → k < 0x1000000 → k ≢ 0 → k ≢ (kzalloc booted kernel_heap 64).0
in_heap k h nz = omega (
  arith,
  (kmalloc-InHeap booted (gaps 25600) booted-Shows 64 (omega arith) (omega arith)).0,
  (kzalloc_zeroed booted (gaps 25600) booted-Shows 64 (omega arith) (omega arith)).0,
)

new_in_heap : (k : ℕ) → k < 0x1000000 → k ≢ 0 → (kzalloc booted kernel_heap 64).0 ≢ k
new_in_heap k h nz e = in_heap k h nz (sym e)

make_new_task_lem_example :
    Makes booted kernel_heap 7 four numbers (make_new_task booted kernel_heap 7 four)
make_new_task_lem_example = make_new_task_lem booted kernel_heap 7 four numbers four-TwoWay (
  new_in_heap 0x1000 (omega arith) (omega arith),
  (
    new_in_heap 0x2000 (omega arith) (omega arith),
    (
      new_in_heap 0x3000 (omega arith) (omega arith),
      (new_in_heap 0x4000 (omega arith) (omega arith), tt),
    ),
  ),
)

frame : InterruptFrame
frame = record {
  edi = 1;
  esi = 2;
  ebp = 3;
  reserved = 4;
  ebx = 5;
  edx = 6;
  ecx = 7;
  eax = 8;
  ip = 9;
  cs = 10;
  flags = 11;
  esp = 12;
  ss = 13;
}

-- The registers that are saved are those that the task goes on with.
saved : Option ℕ
saved = elim (run_first_task booted (task_save_state 0x1000 frame four)) [
  | Option.none ↦ Option.none
  | some (r, s) ↦ some r.esp
]

saved-some : saved ≡ some 12
unfolding saved run_first_task task_save_state frame
saved-some = refl

loaded : (load_user_task_page booted four).1.current_task ≡ 0x4000
unfolding load_user_task_page
loaded = refl
