-- ===== src/Syscall.antt =====
-- System calls, src/kernel/core/syscall.cc, with the methods of src/kernel/core/process.cc that it
-- calls. A handler acts on the state `World` of the kernel's other parts.
pub mod Table
mod Tests
use larva_os.Base.{
  ℕ, ◌+◌, ◌*◌, ◌^◌, Bool, ◌||◌, if◌then◌else◌, ◌==◌, ltb, slt, is_neg, u32, null, Ram, load32,
  Option, none, some, List, [], ◌∷◌, get_or, get_elem?, set,
}
use larva_os.Memory.Paging.{switch_to_kernel_page}
use larva_os.Task.{InterruptFrame, Tasks, load_user_task_page, task_save_state}
use larva_os.Task.User.{through}

abbrev pub maximum_number_of_syscalls : ℕ
maximum_number_of_syscalls = 100

abbrev pub maximum_number_of_syscall_args : ℕ
maximum_number_of_syscall_args = 5

-- A value, a kernel panic, or an access behind the end of the table, which C++ leaves undefined.
pub data Outcome (A : Type 0) : Type 0 where
  done : A → Outcome A
  panics : Outcome A
  outside : Outcome A

-- `_ret_reg`.
abbrev pub SysArgs : Type 0
SysArgs = List ℕ

abbrev pub Handler : Type 0 → Type 0
Handler World = SysArgs → World → ℕ × World

-- `_calls`.
abbrev pub Syscalls : Type 0 → Type 0
Syscalls World = List (Option (Handler World))

unfoldable pub get_arg : SysArgs → ℕ → ℕ
get_arg args n = if ltb n maximum_number_of_syscall_args then get_or args n 0 else 0

-- `num < 0 || num > MAXIMUM_NUMBER_OF_SYSCALLS`.
abbrev pub refused : ℕ → Bool
refused num = is_neg num || slt maximum_number_of_syscalls num

module _ {World : Type 0} where
  -- `_calls[num] = h`, where the entry read is `entry`.
  abbrev pub add_at :
      Option (Option (Handler World))
      → Syscalls World
      → ℕ
      → Handler World
      → Outcome (Syscalls World)
  add_at none calls num h = outside
  add_at (some none) calls num h = done (set calls num (some h))
  add_at (some (some old)) calls num h = panics

  unfoldable pub add : Syscalls World → ℕ → Handler World → Outcome (Syscalls World)
  add calls num h = if refused num then panics else add_at (get_elem? calls num) calls num h

  abbrev pub call_at : Option (Option (Handler World)) → SysArgs → World → Outcome (ℕ × World)
  call_at none args w = outside
  call_at (some none) args w = done (null, w)
  call_at (some (some h)) args w = done (h args w)

  unfoldable pub call : Syscalls World → ℕ → SysArgs → World → Outcome (ℕ × World)
  call calls num args w =
      if refused num then done (null, w) else call_at (get_elem? calls num) args w

  -- The table after `initialize`: SYS_zero is 0, and sys_zero of api.cc returns a null pointer.
  abbrev pub sys_zero : Handler World
  sys_zero args w = (null, w)

  unfoldable pub initialize : Syscalls World → Outcome (Syscalls World)
  unfolding add
  initialize calls = add calls 0 sys_zero

-- The segment registers are loaded by assembly.
unfoldable pub load_kernel_page : Ram → Tasks → Tasks
load_kernel_page m s = record s { directories = switch_to_kernel_page m s.directories }

-- proc::save_current_task_state.
unfoldable pub save_current_task_state : InterruptFrame → Tasks → Outcome Tasks
save_current_task_state frame s =
    if s.current_task == null then panics else done (task_save_state s.current_task frame s)

-- Five words from the stack of the task, under its tables.
unfoldable pub load_args : Ram → InterruptFrame → Tasks → SysArgs × Tasks
unfolding load_kernel_page
load_args m frame s =
    let (_, s1) = load_user_task_page m s in
    let seen = through m (s1.objects s1.current_task).page_directory in
    let word : ℕ → ℕ = λ n. load32 seen (u32 (frame.esp + 4 * n)) in
    (word 0 ∷ word 1 ∷ word 2 ∷ word 3 ∷ word 4 ∷ [], load_kernel_page m s1)

abbrev pub and_then : {A B : Type 0} → Outcome A → (A → Outcome B) → Outcome B
and_then (done a) f = f a
and_then panics f = panics
and_then outside f = outside

-- The result of the handler, which goes back to the task, and the state. The handlers act on the
-- memory and on the tasks, too.
unfoldable pub syscall_handler :
    {World : Type 0}
    → Syscalls (Ram × Tasks × World)
    → Ram
    → ℕ
    → InterruptFrame
    → Tasks
    → World
    → Outcome (ℕ × Ram × Tasks × World)
unfolding call load_kernel_page save_current_task_state load_args
syscall_handler calls m num frame s w =
    and_then (save_current_task_state frame (load_kernel_page m s)) (λ s1.
      let (args, s2) = load_args m frame s1 in
      and_then (call calls num args (m, s2, w)) (λ out.
        let (res, state) = out in
        let (m', s3, w') = state in
        let (_, s4) = load_user_task_page m' s3 in done (res, m', s4, w')))
