-- ===== src/Syscall/Tests.antt =====
-- System calls at work, for src/kernel/core/syscall.cc.
use larva_os.Base.{ℕ, ◌+◌, ◌≡◌, ◌≢◌, refl, arith, none, length, replicate}
use larva_os.Syscall.{
  Handler, Outcome, SysArgs, Syscalls, add, call, get_arg, maximum_number_of_syscalls,
}
use larva_os.Syscall.Table.{call-add, last_number_outside}

abbrev no_calls : Syscalls ℕ
no_calls = replicate maximum_number_of_syscalls none

-- A handler that adds its first argument to the state.
abbrev adder : Handler ℕ
adder args w = (get_arg args 0, w + get_arg args 0)

no_calls_count : length no_calls ≡ maximum_number_of_syscalls
no_calls_count = refl

call-add_example :
    (calls' : Syscalls ℕ) × (add no_calls 4 adder ≡ Outcome.done calls')
    × ((args : SysArgs) (w : ℕ) → call calls' 4 args w ≡ Outcome.done (adder args w))
    × ((other : ℕ) (args : SysArgs) (w : ℕ)
        → 4 ≢ other
        → call calls' other args w ≡ call no_calls other args w)
    × ((g : Handler ℕ) → add calls' 4 g ≡ Outcome.panics)
call-add_example = call-add no_calls adder 4 no_calls_count (omega arith) refl

last_number_outside_example :
    (add no_calls 100 adder ≡ Outcome.outside)
    × ((args : SysArgs) (w : ℕ) → call no_calls 100 args w ≡ Outcome.outside)
last_number_outside_example = last_number_outside no_calls adder no_calls_count
